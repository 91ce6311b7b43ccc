-- ===== src/AsyncCommit.antt =====
-- txnkv/txnlock/lock_resolver.go: how the commit timestamp of an async-commit transaction is found from
-- its secondary locks.
pub mod Steps
pub mod Decision
use client_go.Base.{
  ℕ, Bool, true, false, not, if◌then◌else◌, ltb, ◌==◌, ◌&&◌, Option, none, some, List, [], ◌∷◌,
  ◌++◌, Bytes, length,
}

-- `kvrpcpb.LockInfo`, as far as `addKeys` reads it.
pub record CheckedLock : Type 0 where
  pub key : Bytes
  pub lock_version : ℕ
  pub use_async_commit : Bool
  pub min_commit_ts : ℕ

pub record AsyncResolveData : Type 0 where
  pub commit_ts : ℕ
  pub keys : List Bytes
  pub missing_lock : Bool

pub data AddError : Type 0 where
  commit_ts_too_low commit_ts_mismatch unexpected_timestamp non_async_commit_lock : AddError

-- The end of `addKeys` for a response in which a lock is missing.
abbrev pub same_commit_ts : AsyncResolveData → ℕ → AsyncResolveData × Option AddError
same_commit_ts data' commit_ts = (
  record data' { missing_lock = true },
  (if data'.commit_ts == commit_ts then none else some commit_ts_mismatch),
)

unfoldable pub add_missing : AsyncResolveData → ℕ → AsyncResolveData × Option AddError
add_missing data' commit_ts =
    if not data'.missing_lock
    then (if not (commit_ts == 0) && ltb commit_ts data'.commit_ts
        then (data', some commit_ts_too_low)
        else same_commit_ts (record data' { commit_ts = commit_ts }) commit_ts)
    else same_commit_ts data' commit_ts

abbrev pub add_lock : AsyncResolveData → CheckedLock → AsyncResolveData
add_lock data' l = record data' {
  commit_ts =
      if not data'.missing_lock && ltb data'.commit_ts l.min_commit_ts
      then l.min_commit_ts
      else data'.commit_ts;
  keys = data'.keys ++ (l.key ∷ []);
}

-- The loop of `addKeys` over the locks.
unfoldable pub add_locks :
    ℕ → AsyncResolveData → List CheckedLock → AsyncResolveData × Option AddError
add_locks start_ts data' [] = (data', none)
add_locks start_ts data' (l ∷ locks) =
    let later = add_locks start_ts (add_lock data' l) locks in
    if not (l.lock_version == start_ts)
    then (data', some unexpected_timestamp)
    else if not l.use_async_commit
    then (data', some non_async_commit_lock)
    else later

-- A response of `CheckSecondaryLocks`, for `expected` keys.
pub record Response : Type 0 where
  pub locks : List CheckedLock
  pub expected : ℕ
  pub commit_ts : ℕ

-- A lock is missing.
abbrev pub is_short : Response → Bool
is_short r = ltb (length r.locks) r.expected

unfoldable pub add_keys : ℕ → AsyncResolveData → Response → AsyncResolveData × Option AddError
unfolding add_missing add_locks
add_keys start_ts data' r =
    if is_short r then add_missing data' r.commit_ts else add_locks start_ts data' r.locks

-- The responses in the order in which they come, up to the first error.
unfoldable pub add_all : ℕ → AsyncResolveData → List Response → AsyncResolveData × Option AddError
unfolding add_keys
add_all start_ts data' [] = (data', none)
add_all start_ts data' (r ∷ responses) =
    let (data2, error) = add_keys start_ts data' r in
    elim error [ none ↦ add_all start_ts data2 responses | some e ↦ (data2, some e) ]
