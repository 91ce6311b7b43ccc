-- ===== src/Mvcc/Status.antt =====
-- `CheckTxnStatus` and `TxnHeartBeat` of mvcc_leveldb.go.
use client_go.Base.{
  ℕ, ◌+◌, ◌%◌, Bool, not, if◌then◌else◌, ltb, ◌==◌, ◌&&◌, none, some, List, [], ◌∷◌, Bytes,
  bytes_eq,
}
use client_go.Mvcc.{
  MvccLock, Result, ok, err, txn_not_found, lock_not_exist, not_primary, lock_ver, is_rollback,
  is_pessimistic_lock,
}
use client_go.Mvcc.Entry.{Entry, BatchOp, put_lock, delete_lock, Leveldb}
use client_go.Mvcc.Prewrite.{max, read}
use client_go.Mvcc.Commit.{
  owns, get_txn_commit_info, rollback_lock, write_rollback, has_expired, two_64, write_some,
}

-- The values of `kvrpcpb.Action` that the source names.
pub data Action : Type 0 where
  no_action ttl_expire_rollback ttl_expire_pessimistic_rollback : Action
  lock_not_exist_rollback lock_not_exist_do_nothing min_commit_ts_pushed : Action

-- The results, and what is written.
pub record TxnStatus : Type 0 where
  pub ttl : ℕ
  pub commit_ts : ℕ
  pub action : Action
  pub batch : List BatchOp

abbrev pub status : ℕ → ℕ → Action → List BatchOp → TxnStatus
status ttl commit_ts action batch = record {
  ttl = ttl;
  commit_ts = commit_ts;
  action = action;
  batch = batch;
}

unfoldable pub pessimistic_rollback_key : Entry → Bytes → ℕ → ℕ → List BatchOp
pessimistic_rollback_key e key start_ts for_update_ts = elim e.lock [
  | none ↦ []
  | some l ↦
      if is_pessimistic_lock l.op
        && l.start_ts == start_ts
        && not (ltb for_update_ts l.for_update_ts)
      then delete_lock key ∷ []
      else []
]

-- The lock is there and its time is over.
unfoldable pub expire_lock : Entry → MvccLock → Bytes → ℕ → Bool → TxnStatus
unfolding pessimistic_rollback_key
expire_lock e l key lock_ts resolving_pessimistic =
    if resolving_pessimistic && is_pessimistic_lock l.op
    then status 0 0 ttl_expire_pessimistic_rollback
        (pessimistic_rollback_key e key l.start_ts l.for_update_ts)
    else status 0 0 ttl_expire_rollback (rollback_lock key lock_ts)

-- The lock is there and alive: its `minCommitTS` is pushed beyond the caller's snapshot.
unfoldable pub push_lock : MvccLock → Bytes → ℕ → ℕ → TxnStatus
push_lock l key caller_start_ts current_ts =
    let next : ℕ = (caller_start_ts + 1) % two_64 in
    if caller_start_ts == lock_ver
    then status l.ttl 0 min_commit_ts_pushed []
    else if ltb 0 l.min_commit_ts
    then (if ltb l.min_commit_ts next
        then status l.ttl 0 min_commit_ts_pushed
            (put_lock key (record l { min_commit_ts = max next current_ts }) ∷ [])
        else status l.ttl 0 min_commit_ts_pushed [])
    else status l.ttl 0 no_action []

unfoldable pub check_txn_status_key : Entry → Bytes → ℕ → ℕ → ℕ → Bool → Bool → Result TxnStatus
unfolding expire_lock push_lock
check_txn_status_key e key lock_ts caller_start_ts current_ts rollback_if_not_exist resolving =
    elim (owns e.lock lock_ts) [
      | some l ↦
          if has_expired l current_ts
          then ok (expire_lock e l key lock_ts resolving)
          else ok (push_lock l key caller_start_ts current_ts)
      | none ↦ elim (get_txn_commit_info e.versions lock_ts) [
        | some c ↦
            if is_rollback c.value_type
            then ok (status 0 0 no_action [])
            else ok (status 0 c.commit_ts no_action [])
        | none ↦
            if rollback_if_not_exist
            then (if resolving
                then ok (status 0 0 lock_not_exist_do_nothing [])
                else ok (status 0 0 lock_not_exist_rollback (write_rollback key lock_ts)))
            else err (txn_not_found lock_ts key)
      ]
    ]

-- The time to live that is returned, and what is written.
unfoldable pub txn_heart_beat_key : Entry → Bytes → ℕ → ℕ → Result (ℕ × List BatchOp)
txn_heart_beat_key e key start_ts advise_ttl = elim (owns e.lock start_ts) [
  | none ↦ err lock_not_exist
  | some l ↦
      if not (bytes_eq l.primary key)
      then err not_primary
      else if ltb l.ttl advise_ttl
      then ok (advise_ttl, put_lock key (record l { ttl = advise_ttl }) ∷ [])
      else ok (l.ttl, [])
]

module _ (L : Leveldb) where
  open L use {Db}

  unfoldable pub check_txn_status :
      Db → Bytes → ℕ → ℕ → ℕ → Bool → Bool → Db × Result (ℕ × ℕ × Action)
  unfolding write_some
  check_txn_status db key lock_ts caller_start_ts current_ts rollback_if_not_exist resolving =
      elim (check_txn_status_key (read L db key) key lock_ts caller_start_ts current_ts
        rollback_if_not_exist resolving) [
          | err x ↦ (db, err x)
          | ok s ↦ (write_some L db s.batch, ok (s.ttl, s.commit_ts, s.action))
        ]

  unfoldable pub txn_heart_beat : Db → Bytes → ℕ → ℕ → Db × Result ℕ
  unfolding write_some
  txn_heart_beat db key start_ts advise_ttl =
      elim (txn_heart_beat_key (read L db key) key start_ts advise_ttl) [
        | err x ↦ (db, err x)
        | ok (ttl, batch) ↦ (write_some L db batch, ok ttl)
      ]
