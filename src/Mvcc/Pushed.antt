-- ===== src/Mvcc/Pushed.antt =====
-- `CheckTxnStatus` against a later commit, and `TxnHeartBeat`.
use client_go.Base.{
  ℕ, ◌+◌, ◌≤◌, ◌<◌, ◌≡◌, refl, ap, inl, inr, Bool, true, false, if◌then◌else◌, ltb, Bool-cases,
  Option, some, List, [], ◌∷◌, Bytes, bytes_eq, bytes_eq_refl, arith,
}
use client_go.Mvcc.{MvccLock, MvccError, ok, err, commit_ts_expired, lock_ver}
use client_go.Mvcc.Entry.{Entry, BatchOp, put_lock, Leveldb, apply_batch, apply_op}
use client_go.Mvcc.Prewrite.{read, max}
use client_go.Mvcc.Commit.{Mvcc, commit_key, commit, has_expired, write_some}
use client_go.Mvcc.Status.{
  min_commit_ts_pushed, push_lock, check_txn_status_key, check_txn_status, txn_heart_beat,
  txn_heart_beat_key,
}
use client_go.Mvcc.Durable.{read-write, one_key_fails}

pushed_status :
    (e : Entry) (l : MvccLock) (key : Bytes) (caller current : ℕ) (create resolving : Bool)
    → e.lock ≡ some l
    → has_expired l current ≡ false
    → check_txn_status_key e key l.start_ts caller current create resolving
      ≡ ok (push_lock l key caller current)
unfolding check_txn_status_key
pushed_status e l key caller current create resolving h x = ground arith

-- The lock that `push_lock` leaves.
pushed_lock : MvccLock → ℕ → ℕ → MvccLock
pushed_lock l caller current =
    if ltb l.min_commit_ts (caller + 1)
    then record l { min_commit_ts = max (caller + 1) current }
    else l

pushed_lock_fields :
    (l : MvccLock) (caller current : ℕ)
    → (caller < (pushed_lock l caller current).min_commit_ts)
      × ((pushed_lock l caller current).start_ts ≡ l.start_ts)
unfolding pushed_lock
pushed_lock_fields l caller current = ground arith

push_lock_result :
    (l : MvccLock) (key : Bytes) (caller current : ℕ)
    → 0 < l.min_commit_ts
    → caller < lock_ver
    → ((push_lock l key caller current).ttl ≡ l.ttl)
      × ((push_lock l key caller current).commit_ts ≡ 0)
      × ((push_lock l key caller current).action ≡ min_commit_ts_pushed)
      × ((push_lock l key caller current).batch ≡ (
          if ltb l.min_commit_ts (caller + 1)
          then put_lock key (pushed_lock l caller current) ∷ []
          else []))
unfolding push_lock pushed_lock
push_lock_result l key caller current h k = ground arith

pushed_batch : MvccLock → Bytes → ℕ → ℕ → List BatchOp
pushed_batch l key caller current =
    if ltb l.min_commit_ts (caller + 1)
    then put_lock key (pushed_lock l caller current) ∷ []
    else []

commit_key_refused :
    (e : Entry) (l : MvccLock) (key : Bytes) (start_ts commit_ts : ℕ)
    → e.lock ≡ some l
    → l.start_ts ≡ start_ts
    → commit_ts < l.min_commit_ts
    → commit_key e key start_ts commit_ts
      ≡ err (commit_ts_expired start_ts commit_ts key l.min_commit_ts)
unfolding commit_key
commit_key_refused e l key start_ts commit_ts h o k = ground arith

module _ (L : Leveldb) where
  open L use {Db, write}

  read_pushed :
      (db : Db) (l : MvccLock) (key : Bytes) (caller current : ℕ)
      → (read L db key).lock ≡ some l
      → (read L
          (write_some L db (
            if ltb l.min_commit_ts (caller + 1)
            then put_lock key (pushed_lock l caller current) ∷ []
            else []))
          key).lock
        ≡ some (pushed_lock l caller current)
  unfolding pushed_lock write_some apply_batch apply_op
  read_pushed db l key caller current h = elim (Bool-cases (ltb l.min_commit_ts (caller + 1))) [
    | inl raised ↦ rw (raised, read-write L db _ key tt) (ground (arith, bytes_eq_refl key))
    | inr high ↦ rw high h
  ]

  asked_pushed :
      (db : Db) (l : MvccLock) (key : Bytes) (caller current : ℕ) (create resolving : Bool)
      → (read L db key).lock ≡ some l
      → has_expired l current ≡ false
      → 0 < l.min_commit_ts
      → caller < lock_ver
      → check_txn_status L db key l.start_ts caller current create resolving
        ≡ (write_some L db (pushed_batch l key caller current), ok (l.ttl, 0, min_commit_ts_pushed))
  unfolding check_txn_status pushed_batch
  asked_pushed db l key caller current create resolving h x pos low =
      rw (pushed_status (read L db key) l key caller current create resolving h x, check_txn_status)
        (let (ttl, zero_ts, action, batch) = push_lock_result l key caller current pos low in
          cc (ttl, zero_ts, action, batch))

  -- A transaction's lock, of a transaction that allows its commit timestamp to be pushed, is alive
  -- when a reader at `caller`, below the greatest timestamp, asks for its status. Then the answer is the time to live of the lock
  -- and that the timestamp is pushed, and a later commit of the key at a timestamp that the reader's
  -- snapshot would include is refused.
  pub check_txn_status_then_commit :
      (s : Mvcc L) (l : MvccLock) (key : Bytes) (caller current commit_ts : ℕ)
      (create resolving : Bool)
      → (read L s.db key).lock ≡ some l
      → has_expired l current ≡ false
      → 0 < l.min_commit_ts
      → caller < lock_ver
      → commit_ts ≤ caller
      → let asked = check_txn_status L s.db key l.start_ts caller current create resolving in
        (asked.1 ≡ ok (l.ttl, 0, min_commit_ts_pushed))
        × ((min_ts : ℕ) × (caller < min_ts)
            × ((commit L (record s { db = asked.0 }) (key ∷ []) l.start_ts commit_ts).1
                ≡ some (commit_ts_expired l.start_ts commit_ts key min_ts)))
  unfolding commit pushed_batch
  check_txn_status_then_commit s l key caller current commit_ts create resolving h x pos low early =
      let (above, same) = pushed_lock_fields l caller current in
      let pushed : MvccLock = pushed_lock l caller current in
      let db : Db = write_some L s.db (pushed_batch l key caller current) in
      let refused =
        commit_key_refused (read L db key) pushed key l.start_ts commit_ts
          (read_pushed s.db l key caller current h) same (omega arith) in
      rw (asked_pushed s.db l key caller current create resolving h x pos low) (
        refl,
        (
          pushed.min_commit_ts,
          above,
          ap (λ (r : Mvcc L × Option MvccError). r.1)
              (one_key_fails L (λ e k. commit_key e k l.start_ts commit_ts) (record s { db = db })
                key l.start_ts _ refused),
        ),
      )

  -- A heartbeat on the primary lock of a transaction returns the larger of the lock's time to live
  -- and the advised one; the lock has that time to live afterwards, and is otherwise unchanged.
  pub txn_heart_beat_extends :
      (db : Db) (l : MvccLock) (key : Bytes) (advise_ttl : ℕ)
      → (read L db key).lock ≡ some l
      → bytes_eq l.primary key ≡ true
      → ((txn_heart_beat L db key l.start_ts advise_ttl).1 ≡ ok (max l.ttl advise_ttl))
        × ((read L (txn_heart_beat L db key l.start_ts advise_ttl).0 key).lock
            ≡ some (record l { ttl = max l.ttl advise_ttl }))
        × ((read L (txn_heart_beat L db key l.start_ts advise_ttl).0 key).versions
            ≡ (read L db key).versions)
  unfolding txn_heart_beat txn_heart_beat_key write_some apply_batch apply_op
  txn_heart_beat_extends db l key advise_ttl h p = elim (Bool-cases (ltb l.ttl advise_ttl)) [
    | inl longer ↦
        let batch : List BatchOp = put_lock key (record l { ttl = advise_ttl }) ∷ [] in
        ground (arith, bytes_eq_refl key, read-write L db batch key tt)
    | inr shorter ↦ ground arith
  ]
