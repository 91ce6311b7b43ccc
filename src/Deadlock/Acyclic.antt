-- ===== src/Deadlock/Acyclic.antt =====
-- `Detect` keeps the wait-for graph free of cycles, and so do the operations that remove waits.
use client_go.Base.{
  ℕ, suc, ◌+◌, ◌≡◌, refl, Bool, true, false, if◌then◌else◌, ◌==◌, List, [], ◌∷◌, arith,
}
use client_go.Deadlock.{Detector, TxnKeyHashPair, waits_for, set_waits, deadlock, do_detect}
use client_go.Deadlock.Search.{Ranked}

pub waits_for-set_waits :
    (d : Detector) (txn t : ℕ) (pairs : List TxnKeyHashPair)
    → waits_for (set_waits d txn pairs) t ≡ (if txn == t then pairs else waits_for d t)
unfolding waits_for set_waits
waits_for-set_waits [] txn t pairs = refl
waits_for-set_waits ((u, old) ∷ d) txn t pairs = ground (arith, waits_for-set_waits d txn t pairs)

-- Whether `t` is the source or waits for it.
reaches : ℕ → Detector → ℕ → ℕ → Bool
reaches fuel d source t =
    if t == source then true else elim (do_detect fuel d source t) [ deadlock h ↦ true | _ ↦ false ]

module _ (rank : ℕ → ℕ) (d : Detector) (r : Ranked rank d) (source wait_for : ℕ) where
  -- What reaches the source is lifted above what the source is to wait for.
  lifted : ℕ → ℕ
  lifted t = if reaches (suc (rank t)) d source t then rank t + rank wait_for + 1 else rank t

-- A wait-for graph has no cycle if some rank falls along its edges.
abbrev pub IsAcyclic : Detector → Type 0
IsAcyclic d = (rank : ℕ → ℕ) × Ranked rank d
