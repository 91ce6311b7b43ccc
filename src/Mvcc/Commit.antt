-- ===== src/Mvcc/Commit.antt =====
-- `Commit`, `Rollback` and `Cleanup` of mvcc_leveldb.go, for one key and for a request.
use client_go.Base.{
  ℕ, ◌+◌, ◌%◌, Bool, if◌then◌else◌, ltb, ◌==◌, ◌||◌, Option, none, some, List, [], ◌∷◌, ◌++◌, Bytes,
}
use client_go.Deadlock.{Detector, clean_up}
use client_go.Oracle.{extract_physical}
use client_go.Mvcc.{
  MvccLock, MvccValue, ValueType, type_put, type_delete, type_rollback, type_lock, MvccError, Op,
  Result, ok, err, retryable, already_committed, commit_ts_expired, is_rollback,
}
use client_go.Mvcc.Entry.{Entry, BatchOp, put_value, delete_lock, Leveldb}
use client_go.Mvcc.Read.{lock_err}
use client_go.Mvcc.Prewrite.{read}

abbrev pub committed_type : Op → ValueType
committed_type Op.put = type_put
committed_type Op.lock = type_lock
committed_type _ = type_delete

unfoldable pub commit_lock : MvccLock → Bytes → ℕ → ℕ → List BatchOp
commit_lock l key start_ts commit_ts =
    put_value key commit_ts (record {
      value_type = committed_type l.op;
      start_ts = start_ts;
      commit_ts = commit_ts;
      value = l.value;
    })
    ∷ delete_lock key
    ∷ []

-- The first version that the transaction wrote.
unfoldable pub get_txn_commit_info : List (ℕ × MvccValue) → ℕ → Option MvccValue
get_txn_commit_info [] start_ts = none
get_txn_commit_info ((ver, v) ∷ vs) start_ts =
    if v.start_ts == start_ts then some v else get_txn_commit_info vs start_ts

abbrev pub owns : Option MvccLock → ℕ → Option MvccLock
owns none start_ts = none
owns (some l) start_ts = if l.start_ts == start_ts then some l else none

-- What goes into the batch, or the error.
unfoldable pub commit_key : Entry → Bytes → ℕ → ℕ → Result (List BatchOp)
commit_key e key start_ts commit_ts = elim (owns e.lock start_ts) [
  | none ↦ elim (get_txn_commit_info e.versions start_ts) [
    | none ↦ err retryable
    | some c ↦ if is_rollback c.value_type then err retryable else ok []
  ]
  | some l ↦
      if ltb commit_ts l.min_commit_ts
      then err (commit_ts_expired start_ts commit_ts key l.min_commit_ts)
      else ok (commit_lock l key start_ts commit_ts)
]

abbrev pub rollback_value : ℕ → MvccValue
rollback_value start_ts = record {
  value_type = type_rollback;
  start_ts = start_ts;
  commit_ts = start_ts;
  value = [];
}

unfoldable pub write_rollback : Bytes → ℕ → List BatchOp
write_rollback key start_ts = put_value key start_ts (rollback_value start_ts) ∷ []

unfoldable pub rollback_lock : Bytes → ℕ → List BatchOp
unfolding write_rollback
rollback_lock key start_ts = write_rollback key start_ts ++ (delete_lock key ∷ [])

unfoldable pub rollback_key : Entry → Bytes → ℕ → Result (List BatchOp)
rollback_key e key start_ts = elim (owns e.lock start_ts) [
  | some l ↦ ok (rollback_lock key start_ts)
  | none ↦ elim (get_txn_commit_info e.versions start_ts) [
    | some c ↦ if is_rollback c.value_type then ok [] else err (already_committed c.commit_ts)
    | none ↦ ok (write_rollback key start_ts)
  ]
]

abbrev pub two_64 : ℕ
two_64 = 0x1_0000_0000_0000_0000

-- `uint64(ExtractPhysical(startTS)) + ttl < uint64(ExtractPhysical(currentTS))`
abbrev pub has_expired : MvccLock → ℕ → Bool
has_expired l current_ts =
    ltb ((extract_physical l.start_ts + l.ttl) % two_64) (extract_physical current_ts)

-- What `Cleanup` writes. The rollback record for a transaction that was never seen goes into a
-- batch that the source does not write, so it is not among the results here.
unfoldable pub cleanup_key : Entry → Bytes → ℕ → ℕ → Result (List BatchOp)
cleanup_key e key start_ts current_ts = elim (owns e.lock start_ts) [
  | some l ↦
      if current_ts == 0 || has_expired l current_ts
      then ok (rollback_lock key start_ts)
      else err (lock_err l key)
  | none ↦ elim (get_txn_commit_info e.versions start_ts) [
    | some c ↦ if is_rollback c.value_type then ok [] else err (already_committed c.commit_ts)
    | none ↦ ok []
  ]
]

module _ (L : Leveldb) where
  open L use {Db, write}

  pub record Mvcc : Type 0 where
    pub db : Db
    pub deadlock_detector : Detector

  -- The loop of `Commit` and of `Rollback`: the batch of all keys, or the first error.
  unfoldable pub collect :
      (Entry → Bytes → Result (List BatchOp))
      → Db
      → List Bytes
      → List BatchOp
      → Result (List BatchOp)
  collect key_ops db [] batch = ok batch
  collect key_ops db (k ∷ keys) batch = elim (key_ops (read L db k) k) [
    | err x ↦ err x
    | ok ops ↦ collect key_ops db keys (batch ++ ops)
  ]

  -- `db.Write(batch)` if there was no error, and the deferred `deadlockDetector.CleanUp(startTS)`.
  unfoldable pub write_and_clean_up : Mvcc → ℕ → Result (List BatchOp) → Mvcc × Option MvccError
  write_and_clean_up s start_ts (ok batch) = (
    record { db = write s.db batch; deadlock_detector = clean_up s.deadlock_detector start_ts },
    none,
  )
  write_and_clean_up s start_ts (err x) =
      (record s { deadlock_detector = clean_up s.deadlock_detector start_ts }, some x)

  unfoldable pub commit : Mvcc → List Bytes → ℕ → ℕ → Mvcc × Option MvccError
  unfolding collect write_and_clean_up
  commit s keys start_ts commit_ts =
      write_and_clean_up s start_ts
        (collect (λ e k. commit_key e k start_ts commit_ts) s.db keys [])

  unfoldable pub rollback : Mvcc → List Bytes → ℕ → Mvcc × Option MvccError
  unfolding collect write_and_clean_up
  rollback s keys start_ts =
      write_and_clean_up s start_ts (collect (λ e k. rollback_key e k start_ts) s.db keys [])

  -- A batch that is empty is not written.
  unfoldable pub write_some : Db → List BatchOp → Db
  write_some db [] = db
  write_some db (op ∷ batch) = write db (op ∷ batch)

  cleanup_result : Mvcc → ℕ → Result (List BatchOp) → Mvcc × Option MvccError
  unfolding write_some
  cleanup_result s start_ts (ok batch) = (
    record {
      db = write_some s.db batch;
      deadlock_detector = clean_up s.deadlock_detector start_ts;
    },
    none,
  )
  cleanup_result s start_ts (err x) =
      (record s { deadlock_detector = clean_up s.deadlock_detector start_ts }, some x)

  unfoldable pub cleanup : Mvcc → Bytes → ℕ → ℕ → Mvcc × Option MvccError
  unfolding cleanup_result
  cleanup s key start_ts current_ts =
      cleanup_result s start_ts (cleanup_key (read L s.db key) key start_ts current_ts)
