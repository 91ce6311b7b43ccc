-- ===== src/Mvcc/Durable.antt =====
-- From prewrite through commit to the reads that follow, on one key.
use client_go.Base.{
  ℕ, leb, if◌then◌else◌, ◌≤◌, ◌<◌, ◌≡◌, refl, ◌∙◌, true, none, some, List, [], ◌∷◌, Bytes,
  bytes_eq_refl, arith,
}
use client_go.Deadlock.{clean_up}
use client_go.Mvcc.{
  MvccLock, MvccValue, MvccError, Op, Result, ok, err, type_put, lock_ver, IsolationLevel,
}
use client_go.Mvcc.Entry.{
  Entry, BatchOp, Leveldb, IsVersioned, settles_lock, apply_batch, apply_op, insert_version,
}
use client_go.Mvcc.Read.{get_value, visible}
use client_go.Mvcc.Prewrite.{read}
use client_go.Mvcc.Commit.{Mvcc, commit, collect, commit_key, commit_lock, write_and_clean_up}
use client_go.Mvcc.Versions.{Below, visible-insert_above, visible-insert_newest}

abbrev pub committed : ℕ → ℕ → Bytes → MvccValue
committed start_ts commit_ts value = record {
  value_type = type_put;
  start_ts = start_ts;
  commit_ts = commit_ts;
  value = value;
}

-- What a committed put leaves of the entry.
pub commit_put-apply :
    (e : Entry) (l : MvccLock) (key : Bytes) (start_ts commit_ts : ℕ)
    → l.op ≡ Op.put
    → apply_batch key (commit_lock l key start_ts commit_ts) e ≡ record {
      lock = none;
      versions = insert_version commit_ts (committed start_ts commit_ts l.value) e.versions;
    }
unfolding apply_batch apply_op commit_lock
commit_put-apply e l key start_ts commit_ts h = ground (arith, bytes_eq_refl key)

pub commit_lock-IsVersioned :
    (l : MvccLock) (key : Bytes) (start_ts commit_ts : ℕ)
    → commit_ts < lock_ver
    → IsVersioned (commit_lock l key start_ts commit_ts)
unfolding commit_lock
commit_lock-IsVersioned l key start_ts commit_ts h = (h, tt)

commit_key_owned :
    (e : Entry) (l : MvccLock) (key : Bytes) (commit_ts : ℕ)
    → e.lock ≡ some l
    → l.min_commit_ts ≤ commit_ts
    → commit_key e key l.start_ts commit_ts ≡ ok (commit_lock l key l.start_ts commit_ts)
unfolding commit_key
commit_key_owned e l key commit_ts h k = ground arith

module _ (L : Leveldb) where
  open L use {Db, write, seek-write, seek-write_lock}

  pub read-write :
      (db : Db) (batch : List BatchOp) (key : Bytes)
      → IsVersioned batch
      → read L (write db batch) key ≡ apply_batch key batch (read L db key)
  unfolding read
  read-write db batch key h = seek-write db batch key h

  pub read-write_lock :
      (db : Db) (batch : List BatchOp) (key : Bytes)
      → settles_lock key true batch ≡ true
      → (read L (write db batch) key).lock ≡ (apply_batch key batch (read L db key)).lock
  unfolding read
  read-write_lock db batch key h = seek-write_lock db batch key h

  -- A request for one key, whose batch is known.
  pub one_key :
      (ops_of : Entry → Bytes → Result (List BatchOp)) (s : Mvcc L) (key : Bytes) (start_ts : ℕ)
      (ops : List BatchOp)
      → ops_of (read L s.db key) key ≡ ok ops
      → write_and_clean_up L s start_ts (collect L ops_of s.db (key ∷ []) []) ≡ (
        record { db = write s.db ops; deadlock_detector = clean_up s.deadlock_detector start_ts },
        none,
      )
  unfolding collect write_and_clean_up
  one_key ops_of s key start_ts ops h = rw (h, collect)

  -- A request for one key that fails.
  pub one_key_fails :
      (ops_of : Entry → Bytes → Result (List BatchOp)) (s : Mvcc L) (key : Bytes) (start_ts : ℕ)
      (x : MvccError)
      → ops_of (read L s.db key) key ≡ err x
      → write_and_clean_up L s start_ts (collect L ops_of s.db (key ∷ []) [])
        ≡ (record s { deadlock_detector = clean_up s.deadlock_detector start_ts }, some x)
  unfolding collect write_and_clean_up
  one_key_fails ops_of s key start_ts x h = rw (h, collect)

  commit_owned :
      (s : Mvcc L) (l : MvccLock) (key : Bytes) (commit_ts : ℕ)
      → (read L s.db key).lock ≡ some l
      → l.min_commit_ts ≤ commit_ts
      → commit L s (key ∷ []) l.start_ts commit_ts ≡ (
        record {
          db = write s.db (commit_lock l key l.start_ts commit_ts);
          deadlock_detector = clean_up s.deadlock_detector l.start_ts;
        },
        none,
      )
  unfolding commit
  commit_owned s l key commit_ts h k =
      one_key (λ e k. commit_key e k l.start_ts commit_ts) s key l.start_ts
        (commit_lock l key l.start_ts commit_ts)
        (commit_key_owned (read L s.db key) l key commit_ts h k)

  -- A lock for a put is committed at a timestamp that is newer than every version of the key, that
  -- the lock allows, and that is below the greatest timestamp 2^64-1. Then the call succeeds; a read at or after the commit timestamp returns
  -- the value of the lock, under either isolation level; and a read before it finds what the
  -- versions held before, no longer stopped by the lock.
  pub commit_then_get :
      (s : Mvcc L) (l : MvccLock) (key : Bytes) (commit_ts ts : ℕ) (iso : IsolationLevel)
      (resolved : List ℕ)
      → (read L s.db key).lock ≡ some l
      → l.op ≡ Op.put
      → l.min_commit_ts ≤ commit_ts
      → commit_ts < lock_ver
      → Below commit_ts (read L s.db key).versions
      → ((commit L s (key ∷ []) l.start_ts commit_ts).1 ≡ none)
        × (get_value
              (read L (commit L s (key ∷ []) l.start_ts commit_ts).0.db key)
              key
              ts
              iso
              resolved
            ≡ ok (
                if leb commit_ts ts
                then some (committed l.start_ts commit_ts l.value)
                else visible (read L s.db key).versions ts))
  unfolding get_value
  commit_then_get s l key commit_ts ts iso resolved h p k low w =
      let e : Entry = read L s.db key in
      let after : read L (write s.db (commit_lock l key l.start_ts commit_ts)) key ≡ record {
        lock = none;
        versions = insert_version commit_ts (committed l.start_ts commit_ts l.value) e.versions;
      } =
        read-write s.db (commit_lock l key l.start_ts commit_ts) key
          (commit_lock-IsVersioned l key l.start_ts commit_ts low)
        ∙ commit_put-apply e l key l.start_ts commit_ts p in
      rw (commit_owned s l key commit_ts h k) (
        refl,
        rw after (
            ground (
              arith,
              visible-insert_newest commit_ts ts (committed l.start_ts commit_ts l.value)
                  e.versions,
              visible-insert_above commit_ts commit_ts ts (committed l.start_ts commit_ts l.value)
                  e.versions,
            )),
      )
