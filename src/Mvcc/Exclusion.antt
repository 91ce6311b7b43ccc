-- ===== src/Mvcc/Exclusion.antt =====
-- Commit and rollback of one transaction on one key, in either order.
use client_go.Base.{
  ℕ, ◌≤◌, ◌<◌, ◌≡◌, refl, ap, ◌∙◌, inl, inr, true, false, Option-cases, Option, none, some, List,
  [], ◌∷◌, Bytes, bytes_eq_refl, arith,
}
use client_go.Mvcc.{
  MvccLock, MvccValue, MvccError, Op, ok, err, Result-cases, retryable, already_committed,
  is_rollback, lock_ver,
}
use client_go.Mvcc.Entry.{Entry, BatchOp, Leveldb, apply_batch, apply_op, insert_version}
use client_go.Mvcc.Prewrite.{read}
use client_go.Mvcc.Commit.{
  Mvcc, owns, get_txn_commit_info, rollback_value, rollback_key, rollback_lock, write_rollback,
  commit_key, commit_lock, committed_type, rollback, commit,
}
use client_go.Mvcc.Versions.{get_txn_commit_info-insert}
use client_go.Mvcc.Decided.{rollback_key-IsVersioned}
use client_go.Mvcc.Durable.{read-write, commit_lock-IsVersioned, one_key, one_key_fails}

abbrev committed_value : MvccLock → ℕ → MvccValue
committed_value l commit_ts = record {
  value_type = committed_type l.op;
  start_ts = l.start_ts;
  commit_ts = commit_ts;
  value = l.value;
}

not_rollback : (op : Op) → is_rollback (committed_type op) ≡ false
not_rollback Op.put = refl
not_rollback Op.lock = refl
not_rollback _ = refl

-- The entry after the batch of a commit.
commit_lock-apply :
    (e : Entry) (l : MvccLock) (key : Bytes) (commit_ts : ℕ)
    → apply_batch key (commit_lock l key l.start_ts commit_ts) e ≡ record {
      lock = none;
      versions = insert_version commit_ts (committed_value l commit_ts) e.versions;
    }
unfolding apply_batch apply_op commit_lock
commit_lock-apply e l key commit_ts = ground (arith, bytes_eq_refl key)

-- An entry that tells that the transaction is decided.
after_commit :
    (e : Entry) (c : MvccValue) (key : Bytes) (start_ts later : ℕ)
    → e.lock ≡ none
    → get_txn_commit_info e.versions start_ts ≡ some c
    → is_rollback c.value_type ≡ false
    → (rollback_key e key start_ts ≡ err (already_committed c.commit_ts))
      × (commit_key e key start_ts later ≡ ok [])
unfolding rollback_key commit_key
after_commit e c key start_ts later h k r = (ground arith, ground arith)

after_rollback :
    (e : Entry) (c : MvccValue) (key : Bytes) (start_ts later : ℕ)
    → owns e.lock start_ts ≡ none
    → get_txn_commit_info e.versions start_ts ≡ some c
    → is_rollback c.value_type ≡ true
    → (commit_key e key start_ts later ≡ err retryable) × (rollback_key e key start_ts ≡ ok [])
unfolding rollback_key commit_key
after_rollback e c key start_ts later h k r = (ground arith, ground arith)

commit_key_writes :
    (e : Entry) (l : MvccLock) (key : Bytes) (commit_ts : ℕ)
    → e.lock ≡ some l
    → l.min_commit_ts ≤ commit_ts
    → commit_key e key l.start_ts commit_ts ≡ ok (commit_lock l key l.start_ts commit_ts)
unfolding commit_key
commit_key_writes e l key commit_ts h k = ground arith

-- What a rollback that reports no error leaves, if the transaction that owns the lock has no
-- version yet: no lock of its own, and a rollback record as what it is known by.
rollback_key_decides :
    (e : Entry) (key : Bytes) (start_ts : ℕ) (ops : List BatchOp)
    → ((l : MvccLock)
        → owns e.lock start_ts ≡ some l
        → get_txn_commit_info e.versions start_ts ≡ none)
    → rollback_key e key start_ts ≡ ok ops
    → (owns (apply_batch key ops e).lock start_ts ≡ none)
      × ((c : MvccValue) × (get_txn_commit_info (apply_batch key ops e).versions start_ts ≡ some c)
          × (is_rollback c.value_type ≡ true))
unfolding rollback_key rollback_lock write_rollback apply_batch apply_op
rollback_key_decides e key start_ts ops fresh h =
    let recorded = get_txn_commit_info-insert start_ts (rollback_value start_ts) e.versions in
    elim (Option-cases (owns e.lock start_ts)) [
      | inr (l, own) ↦ (
        ground (arith, bytes_eq_refl key),
        (rollback_value start_ts, ground (arith, bytes_eq_refl key, recorded, fresh l own), refl),
      )
      | inl foreign ↦ elim (Option-cases (get_txn_commit_info e.versions start_ts)) [
        | inl unseen ↦ (
          ground (arith, bytes_eq_refl key),
          (rollback_value start_ts, ground (arith, bytes_eq_refl key, recorded), refl),
        )
        | inr (c, seen) ↦ (ground arith, (c, ground arith, ground arith))
      ]
    ]

module _ (L : Leveldb) where
  open L use {Db, write}

  -- A transaction holds the lock of a key, has no version there yet, and is committed at a timestamp
  -- that the lock allows and that is below the greatest one, 2^64-1. Afterwards a rollback of the key answers that it is already committed, with
  -- that timestamp, and another commit, at whatever timestamp, succeeds.
  pub commit_then_rollback :
      (s : Mvcc L) (l : MvccLock) (key : Bytes) (commit_ts later : ℕ)
      → (read L s.db key).lock ≡ some l
      → l.min_commit_ts ≤ commit_ts
      → commit_ts < lock_ver
      → get_txn_commit_info (read L s.db key).versions l.start_ts ≡ none
      → ((rollback L (commit L s (key ∷ []) l.start_ts commit_ts).0 (key ∷ []) l.start_ts).1
          ≡ some (already_committed commit_ts))
        × ((commit L (commit L s (key ∷ []) l.start_ts commit_ts).0 (key ∷ []) l.start_ts later).1
            ≡ none)
  unfolding commit rollback
  commit_then_rollback s l key commit_ts later h k low fresh =
      let batch : List BatchOp = commit_lock l key l.start_ts commit_ts in
      let value : MvccValue = committed_value l commit_ts in
      let e : Entry = read L (write s.db batch) key in
      let after : e ≡ record {
        lock = none;
        versions = insert_version commit_ts value (read L s.db key).versions;
      } =
        read-write L s.db batch key (commit_lock-IsVersioned l key l.start_ts commit_ts low)
        ∙ commit_lock-apply (read L s.db key) l key commit_ts in
      let decided =
        after_commit e value key l.start_ts later (ap (λ (x : Entry). x.lock) after)
          (rw after (get_txn_commit_info-insert commit_ts value (read L s.db key).versions fresh))
          (not_rollback l.op) in
      let first =
        one_key L (λ e k. commit_key e k l.start_ts commit_ts) s key l.start_ts batch
          (commit_key_writes (read L s.db key) l key commit_ts h k) in
      rw first (
        ap (λ (r : Mvcc L × Option MvccError). r.1)
            (one_key_fails L (λ e k. rollback_key e k l.start_ts) _ key l.start_ts _ decided.0),
        ap (λ (r : Mvcc L × Option MvccError). r.1)
            (one_key L (λ e k. commit_key e k l.start_ts later) _ key l.start_ts [] decided.1),
      )

  -- The start timestamp of a transaction is below the greatest one, 2^64-1. A rollback of a key
  -- reports no error, and if the transaction holds the lock, then it has no
  -- version there. Afterwards a commit of the key, at whatever timestamp, fails with the error that
  -- the transaction is not found, and another rollback succeeds.
  pub rollback_then_commit :
      (s : Mvcc L) (key : Bytes) (start_ts commit_ts : ℕ)
      → start_ts < lock_ver
      → ((l : MvccLock)
          → owns (read L s.db key).lock start_ts ≡ some l
          → get_txn_commit_info (read L s.db key).versions start_ts ≡ none)
      → (rollback L s (key ∷ []) start_ts).1 ≡ none
      → ((commit L (rollback L s (key ∷ []) start_ts).0 (key ∷ []) start_ts commit_ts).1
          ≡ some retryable)
        × ((rollback L (rollback L s (key ∷ []) start_ts).0 (key ∷ []) start_ts).1 ≡ none)
  unfolding commit rollback
  rollback_then_commit s key start_ts commit_ts low fresh h =
      elim (Result-cases (rollback_key (read L s.db key) key start_ts)) [
        | inr (x, failed) ↦
            cc (one_key_fails L (λ e k. rollback_key e k start_ts) s key start_ts x failed)
        | inl (ops, done) ↦
            let e : Entry = read L (write s.db ops) key in
            let (free, (c, known, rolled)) =
              rollback_key_decides (read L s.db key) key start_ts ops fresh done in
            let after =
              read-write L s.db ops key
                (rollback_key-IsVersioned (read L s.db key) key start_ts ops low done) in
            let decided =
              after_rollback e c key start_ts commit_ts (rw after free) (rw after known) rolled in
            rw (one_key L (λ e k. rollback_key e k start_ts) s key start_ts ops done) (
              ap (λ (r : Mvcc L × Option MvccError). r.1)
                  (one_key_fails L (λ e k. commit_key e k start_ts commit_ts) _ key start_ts _
                    decided.0),
              ap (λ (r : Mvcc L × Option MvccError). r.1)
                  (one_key L (λ e k. rollback_key e k start_ts) _ key start_ts [] decided.1),
            )
      ]
