-- ===== src/Deadlock/Search.antt =====
-- `do_detect` of internal/mockstore/deadlock/deadlock.go decides whether one transaction waits for
-- another, and ends where the graph has no cycle.
use client_go.Base.{
  ℕ, zero, suc, ◌<◌, ◌≡◌, refl, ◌∙◌, ◌⊎◌, inl, inr, Bool-cases, ◌==◌, List, [], ◌∷◌, All, arith,
}
use client_go.Deadlock.{
  Detector, TxnKeyHashPair, waits_for, Detected, clear, deadlock, detect_targets, do_detect,
}

abbrev pub HasTarget : ℕ → List TxnKeyHashPair → Type 0
HasTarget txn [] = ⊥
HasTarget txn (pair ∷ pairs) = (pair.txn ≡ txn) ⊎ HasTarget txn pairs

-- A chain of waits from one transaction to another.
pub data Waits (d : Detector) : ℕ → ℕ → Type 0 where
  direct : {a b : ℕ} → HasTarget b (waits_for d a) → Waits d a b
  chain : {a b c : ℕ} → HasTarget b (waits_for d a) → Waits d b c → Waits d a c

-- Along each edge the rank falls: what there is no cycle means.
abbrev pub Ranked : (ℕ → ℕ) → Detector → Type 0
Ranked rank d = (t : ℕ) → All (λ (p : TxnKeyHashPair). rank p.txn < rank t) (waits_for d t)

target_rank :
    (rank : ℕ → ℕ) (bound b : ℕ) (pairs : List TxnKeyHashPair)
    → All (λ (p : TxnKeyHashPair). rank p.txn < bound) pairs
    → HasTarget b pairs
    → rank b < bound
target_rank rank bound b [] r h = absurd h
target_rank rank bound b (pair ∷ pairs) r (inl e) = rw (← e) (r.0)
target_rank rank bound b (pair ∷ pairs) r (inr h) = target_rank rank bound b pairs r.1 h

pub Waits-rank :
    (rank : ℕ → ℕ) (d : Detector) → Ranked rank d → {a b : ℕ} → Waits d a b → rank b < rank a
Waits-rank rank d r (direct {a = a} {b = b} h) = target_rank rank (rank a) b (waits_for d a) (r a) h
Waits-rank rank d r (chain {a = a} {b = b} h w) =
    omega (arith, target_rank rank (rank a) b (waits_for d a) (r a) h, Waits-rank rank d r w)

-- The answer for a list of targets: whether one of them is the source or waits for it.
abbrev Leads : Detector → ℕ → List TxnKeyHashPair → Type 0
Leads d source [] = ⊥
Leads d source (pair ∷ pairs) = (pair.txn ≡ source) ⊎ Waits d pair.txn source ⊎ Leads d source pairs

Leads→Waits :
    (d : Detector) (source a : ℕ) (pairs : List TxnKeyHashPair)
    → ((b : ℕ) → HasTarget b pairs → HasTarget b (waits_for d a))
    → Leads d source pairs
    → Waits d a source
Leads→Waits d source a [] sub h = absurd h
Leads→Waits d source a (pair ∷ pairs) sub (inl e) = direct (sub source (inl e))
Leads→Waits d source a (pair ∷ pairs) sub (inr (inl w)) = chain (sub pair.txn (inl refl)) w
Leads→Waits d source a (pair ∷ pairs) sub (inr (inr h)) =
    Leads→Waits d source a pairs (λ b k. sub b (inr k)) h

target→Leads :
    (d : Detector) (source b : ℕ) (pairs : List TxnKeyHashPair)
    → HasTarget b pairs
    → (b ≡ source) ⊎ Waits d b source
    → Leads d source pairs
target→Leads d source b [] h w = absurd h
target→Leads d source b (pair ∷ pairs) (inl e) (inl s) = inl (e ∙ s)
target→Leads d source b (pair ∷ pairs) (inl e) (inr w) = inr (inl (rw e w))
target→Leads d source b (pair ∷ pairs) (inr h) w = inr (inr (target→Leads d source b pairs h w))

Waits→Leads : (d : Detector) {a source : ℕ} → Waits d a source → Leads d source (waits_for d a)
Waits→Leads d (direct {a = a} {b = b} h) = target→Leads d b b (waits_for d a) h (inl refl)
Waits→Leads d (chain {a = a} {b = b} {c = c} h w) = target→Leads d c b (waits_for d a) h (inr w)

-- A correct answer to the question whether `P` holds.
abbrev pub Answers : Type 0 → Detected → Type 0
Answers P r = ((r ≡ clear) × (P → ⊥)) ⊎ ((h : ℕ) × (r ≡ deadlock h) × P)

detect_targets-Answers :
    (rank : ℕ → ℕ) (bound : ℕ) (d : Detector) (search : ℕ → Detected) (source : ℕ)
    (pairs : List TxnKeyHashPair)
    → ((t : ℕ) → rank t < bound → Answers (Waits d t source) (search t))
    → All (λ (p : TxnKeyHashPair). rank p.txn < bound) pairs
    → Answers (Leads d source pairs) (detect_targets search source pairs)
unfolding detect_targets
detect_targets-Answers rank bound d search source [] found r = inl (refl, λ h. h)
detect_targets-Answers rank bound d search source (pair ∷ pairs) found r =
    elim (Bool-cases (pair.txn == source)) [
      | inl hit ↦ inr (pair.key_hash, rw hit, inl (ground arith))
      | inr miss ↦ elim (found pair.txn r.0) [
        | inr (h, e, w) ↦ inr (h, rw (miss, e), inr (inl w))
        | inl (e, none) ↦ elim (detect_targets-Answers rank bound d search source pairs found r.1) [
          | inl (e', none') ↦ inl (
            rw (miss, e) e',
            λ h. elim h [ inl s ↦ ground arith | inr (inl w) ↦ none w | inr (inr l) ↦ none' l ],
          )
          | inr (h, e', l) ↦ inr (h, rw (miss, e) e', inr (inr l))
        ]
      ]
    ]

-- In a graph without a cycle, with the rank of the transaction that is waited for below the fuel,
-- the search ends, and it reports a deadlock exactly if that transaction waits, directly or through
-- others, for the source.
pub do_detect_correct :
    (rank : ℕ → ℕ) (d : Detector) (fuel source wait_for : ℕ)
    → Ranked rank d
    → rank wait_for < fuel
    → Answers (Waits d wait_for source) (do_detect fuel d source wait_for)
unfolding do_detect
do_detect_correct rank d zero source wait_for r h = absurd (omega arith)
do_detect_correct rank d (suc fuel) source wait_for r h =
    let found = λ (t : ℕ) (k : rank t < rank wait_for).
      do_detect_correct rank d fuel source t r (omega arith) in
    elim (detect_targets-Answers rank (rank wait_for) d (do_detect fuel d source) source
      (waits_for d wait_for) found (r wait_for)) [
        | inl (e, none) ↦ inl (e, λ w. none (Waits→Leads d w))
        | inr (h, e, l) ↦
            inr (h, e, Leads→Waits d source wait_for (waits_for d wait_for) (λ b k. k) l)
      ]
