-- ===== src/Deadlock/Removal.antt =====
-- `CleanUp`, `CleanUpWaitFor` and `Expire` of internal/mockstore/deadlock/deadlock.go.
use client_go.Base.{
  ℕ, ◌<◌, ◌≡◌, inl, inr, if◌then◌else◌, Bool-cases, ltb, ◌==◌, ◌&&◌, List, [], ◌∷◌, All, arith,
}
use client_go.Deadlock.{
  Detector, TxnKeyHashPair, waits_for, clean_up, clean_up_wait_for, clean_or_set, remove_pair,
  expire,
}
use client_go.Deadlock.Search.{Ranked}
use client_go.Deadlock.Acyclic.{waits_for-set_waits, IsAcyclic}

waits_for-clean_up :
    (d : Detector) (txn t : ℕ)
    → waits_for (clean_up d txn) t ≡ (if txn == t then [] else waits_for d t)
unfolding waits_for clean_up
waits_for-clean_up [] txn t = ground arith
waits_for-clean_up ((u, pairs) ∷ d) txn t = ground (arith, waits_for-clean_up d txn t)

waits_for-expire :
    (d : Detector) (min_ts t : ℕ)
    → waits_for (expire d min_ts) t ≡ (if ltb t min_ts then [] else waits_for d t)
unfolding waits_for expire
waits_for-expire [] min_ts t = ground arith
waits_for-expire ((u, pairs) ∷ d) min_ts t = ground (arith, waits_for-expire d min_ts t)

waits_for-clean_or_set :
    (d : Detector) (txn t : ℕ) (pairs : List TxnKeyHashPair)
    → waits_for (clean_or_set d txn pairs) t ≡ (if txn == t then pairs else waits_for d t)
unfolding clean_or_set
waits_for-clean_or_set d txn t [] = waits_for-clean_up d txn t
waits_for-clean_or_set d txn t (pair ∷ pairs) = waits_for-set_waits d txn t (pair ∷ pairs)

remove_pair-All :
    (Q : ℕ → Type 0) (txn key_hash : ℕ) (pairs : List TxnKeyHashPair)
    → All (λ (p : TxnKeyHashPair). Q p.txn) pairs
    → All (λ (p : TxnKeyHashPair). Q p.txn) (remove_pair txn key_hash pairs)
unfolding remove_pair
remove_pair-All Q txn key_hash [] h = tt
remove_pair-All Q txn key_hash (pair ∷ pairs) h =
    elim (Bool-cases (pair.txn == txn && pair.key_hash == key_hash)) [
      | inl hit ↦ rw hit (h.1)
      | inr miss ↦ rw miss (h.0, remove_pair-All Q txn key_hash pairs h.1)
    ]

module _ (rank : ℕ → ℕ) (d : Detector) (r : Ranked rank d) where
  clean_up-Ranked : (txn : ℕ) → Ranked rank (clean_up d txn)
  clean_up-Ranked txn t =
      rw (waits_for-clean_up d txn t)
        (elim (Bool-cases (txn == t)) [ inl hit ↦ rw hit tt | inr miss ↦ rw miss (r t) ])

  expire-Ranked : (min_ts : ℕ) → Ranked rank (expire d min_ts)
  expire-Ranked min_ts t =
      rw (waits_for-expire d min_ts t)
        (elim (Bool-cases (ltb t min_ts)) [ inl old ↦ rw old tt | inr kept ↦ rw kept (r t) ])

  clean_up_wait_for-Ranked :
      (txn wait_for key_hash : ℕ) → Ranked rank (clean_up_wait_for d txn wait_for key_hash)
  unfolding clean_up_wait_for
  clean_up_wait_for-Ranked txn wait_for key_hash t =
      rw (waits_for-clean_or_set d txn t (remove_pair wait_for key_hash (waits_for d txn)))
        (elim (Bool-cases (txn == t)) [
          | inl hit ↦
              let same : txn ≡ t = ground arith in
              rw (hit, ← same)
                (remove_pair-All (λ b. rank b < rank txn) wait_for key_hash (waits_for d txn)
                  (r txn))
          | inr miss ↦ rw miss (r t)
        ])

-- The operations that remove waits close no cycle. After `clean_up` the transaction waits for
-- nothing and every other waits for what it did; `expire` does that to all transactions below the
-- given timestamp.
pub removal_keeps_IsAcyclic :
    (d : Detector) (txn wait_for key_hash min_ts t : ℕ)
    → IsAcyclic d
    → IsAcyclic (clean_up d txn)
      × IsAcyclic (clean_up_wait_for d txn wait_for key_hash)
      × IsAcyclic (expire d min_ts)
      × (waits_for (clean_up d txn) t ≡ (if txn == t then [] else waits_for d t))
      × (waits_for (expire d min_ts) t ≡ (if ltb t min_ts then [] else waits_for d t))
removal_keeps_IsAcyclic d txn wait_for key_hash min_ts t (rank, r) = (
  (rank, clean_up-Ranked rank d r txn),
  (rank, clean_up_wait_for-Ranked rank d r txn wait_for key_hash),
  (rank, expire-Ranked rank d r min_ts),
  waits_for-clean_up d txn t,
  waits_for-expire d min_ts t,
)
