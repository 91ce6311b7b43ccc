-- ===== src/Mvcc.antt =====
-- internal/mockstore/mocktikv/mvcc.go and mvcc_leveldb.go: the multi-version store that speaks the
-- transaction protocol. This file has the data; the children have the operations.
pub mod RowKey
pub mod Entry
pub mod Read
pub mod Conflict
pub mod Prewrite
pub mod Commit
pub mod Status
pub mod Pessimistic
pub mod Range
pub mod Collection
pub mod Versions
pub mod Guard
pub mod Durable
pub mod Decided
pub mod Exclusion
pub mod Pushed
pub mod Requests
pub mod Atomic
use client_go.Base.{ℕ, ◌≡◌, refl, ◌⊎◌, inl, inr, Bool, true, false, Bytes}

-- The values of `kvrpcpb.Op` that the source names.
pub data Op : Type 0 where
  put del lock rollback insert pessimistic_lock check_not_exists : Op

pub data ValueType : Type 0 where
  type_put type_delete type_rollback type_lock : ValueType

pub record MvccValue : Type 0 where
  pub value_type : ValueType
  pub start_ts : ℕ
  pub commit_ts : ℕ
  pub value : Bytes

pub record MvccLock : Type 0 where
  pub start_ts : ℕ
  pub primary : Bytes
  pub value : Bytes
  pub op : Op
  pub ttl : ℕ
  pub for_update_ts : ℕ
  pub txn_size : ℕ
  pub min_commit_ts : ℕ

pub data Assertion : Type 0 where
  assert_none assert_exist assert_not_exist : Assertion

pub data AssertionLevel : Type 0 where
  level_off level_fast level_strict : AssertionLevel

pub data IsolationLevel : Type 0 where
  si rc : IsolationLevel

pub data PessimisticAction : Type 0 where
  skip_pessimistic_check do_pessimistic_check do_constraint_check : PessimisticAction

pub record Mutation : Type 0 where
  pub op : Op
  pub key : Bytes
  pub value : Bytes
  pub assertion : Assertion

-- `ErrLocked`; its `key` is the raw one.
pub record Locked : Type 0 where
  pub key : Bytes
  pub primary : Bytes
  pub start_ts : ℕ
  pub for_update_ts : ℕ
  pub ttl : ℕ
  pub txn_size : ℕ
  pub lock_type : Op

pub record WriteConflict : Type 0 where
  pub start_ts : ℕ
  pub conflict_ts : ℕ
  pub conflict_commit_ts : ℕ
  pub key : Bytes
  pub can_force_lock : Bool

-- The errors of mocktikv/errors.go that the modelled operations return.
pub data MvccError : Type 0 where
  locked : Locked → MvccError
  conflict : WriteConflict → MvccError
  already_rollbacked : ℕ → Bytes → MvccError
  key_already_exist : Bytes → MvccError
  -- The start timestamp, the key, and the two timestamps of the version found.
  assertion_failed : ℕ → Bytes → Assertion → ℕ → ℕ → MvccError
  -- "pessimistic lock not found"
  abort : MvccError
  -- "txn not found"
  retryable : MvccError
  already_committed : ℕ → MvccError
  -- Start, attempted commit and minimal commit timestamp.
  commit_ts_expired : ℕ → ℕ → Bytes → ℕ → MvccError
  txn_not_found : ℕ → Bytes → MvccError
  -- "lock doesn't exist"
  lock_not_exist : MvccError
  -- "txnHeartBeat on non-primary key, the code should not run here"
  not_primary : MvccError
  -- `ErrDeadlock`: the key, the timestamp of its lock, the hash of the key in the cycle.
  deadlocked : Bytes → ℕ → ℕ → MvccError
  -- "LockOnlyIfExists is set for LockKeys but ReturnValues is not set"
  lock_only_if_exists_unset : MvccError

pub data Result {ℓ} (A : Type ℓ) : Type ℓ where
  ok : A → Result A
  err : MvccError → Result A

-- `math.MaxUint64`, the version under which the lock of a key is stored.
abbrev pub lock_ver : ℕ
lock_ver = 0xffff_ffff_ffff_ffff

abbrev pub is_pessimistic_lock : Op → Bool
is_pessimistic_lock Op.pessimistic_lock = true
is_pessimistic_lock _ = false

abbrev pub is_lock : Op → Bool
is_lock Op.lock = true
is_lock _ = false

abbrev pub is_insert : Op → Bool
is_insert Op.insert = true
is_insert _ = false

abbrev pub is_check_not_exists : Op → Bool
is_check_not_exists Op.check_not_exists = true
is_check_not_exists _ = false

abbrev pub is_rollback : ValueType → Bool
is_rollback type_rollback = true
is_rollback _ = false

abbrev pub is_delete : ValueType → Bool
is_delete type_delete = true
is_delete _ = false

-- `typePut` or `typeDelete`: a version that a read sees.
abbrev pub is_data : ValueType → Bool
is_data type_put = true
is_data type_delete = true
is_data type_rollback = false
is_data type_lock = false

abbrev pub is_exist : Assertion → Bool
is_exist assert_exist = true
is_exist _ = false

abbrev pub is_not_exist : Assertion → Bool
is_not_exist assert_not_exist = true
is_not_exist _ = false

abbrev pub is_off : AssertionLevel → Bool
is_off level_off = true
is_off _ = false

abbrev pub is_si : IsolationLevel → Bool
is_si si = true
is_si rc = false

abbrev pub is_do_check : PessimisticAction → Bool
is_do_check do_pessimistic_check = true
is_do_check _ = false

pub Result-cases {ℓ} :
    {A : Type ℓ} (r : Result A) → ((a : A) × (r ≡ ok a)) ⊎ ((x : MvccError) × (r ≡ err x))
Result-cases (ok a) = inl (a, refl)
Result-cases (err x) = inr (x, refl)
