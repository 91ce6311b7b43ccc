-- ===== src/Mvcc/Pessimistic.antt =====
-- `PessimisticLock`, `pessimisticLockMutation` and `PessimisticRollback` of mvcc_leveldb.go.
pub mod Locks
use client_go.Base.{
  ℕ, zero, suc, ◌+◌, Bool, true, false, not, if◌then◌else◌, ltb, ◌==◌, ◌&&◌, ◌||◌, Option, none,
  some, List, [], ◌∷◌, ◌++◌, map, Bytes, length,
}
use client_go.Deadlock.{Detector, detect, clear, deadlock, lost}
use client_go.Mvcc.{
  MvccLock, MvccError, WriteConflict, Mutation, Op, level_off, conflict, locked, deadlocked,
  lock_only_if_exists_unset,
}
use client_go.Mvcc.Entry.{Entry, BatchOp, put_lock, Leveldb}
use client_go.Mvcc.Read.{lock_err}
use client_go.Mvcc.Conflict.{Checked, check_conflict_value}
use client_go.Mvcc.Prewrite.{read}
use client_go.Mvcc.Commit.{Mvcc, owns}
use client_go.Mvcc.Status.{pessimistic_rollback_key}

pub data LockResultType : Type 0 where
  result_normal result_locked_with_conflict result_failed : LockResultType

-- `kvrpcpb.PessimisticLockKeyResult`; `none` is a nil value.
pub record LockKeyResult : Type 0 where
  pub kind : LockResultType
  pub value : Option Bytes
  pub existence : Bool
  pub locked_with_conflict_ts : ℕ

-- `kvrpcpb.PessimisticLockRequest`, as far as the source reads it. `force_lock` and `no_wait` stand
-- for `WakeUpModeForceLock` and for the wait timeout `LockNoWait`.
pub record LockRequest : Type 0 where
  pub mutations : List Mutation
  pub start_version : ℕ
  pub for_update_ts : ℕ
  pub primary_lock : Bytes
  pub lock_ttl : ℕ
  pub min_commit_ts : ℕ
  pub return_values : Bool
  pub check_existence : Bool
  pub lock_only_if_exists : Bool
  pub force_lock : Bool
  pub no_wait : Bool

abbrev pub non_empty : Option Bytes → Bool
non_empty none = false
non_empty (some []) = false
non_empty (some (b ∷ bs)) = true

-- What a mutation adds: its error, its result, its batch.
pub record LockOutcome : Type 0 where
  pub error : Option MvccError
  pub results : List LockKeyResult
  pub batch : List BatchOp

abbrev pub refuse : MvccError → LockOutcome
refuse e = record { error = some e; results = []; batch = [] }

-- The result that is reported where the check found no error.
unfoldable pub normal_result : LockRequest → Option Bytes → LockKeyResult
normal_result req val =
    if req.return_values
    then record {
      kind = result_normal;
      value = val;
      existence = non_empty val;
      locked_with_conflict_ts = 0;
    }
    else if req.check_existence
    then record {
      kind = result_normal;
      value = none;
      existence = non_empty val;
      locked_with_conflict_ts = 0;
    }
    else record {
      kind = result_normal;
      value = none;
      existence = false;
      locked_with_conflict_ts = 0;
    }

unfoldable pub pessimistic_lock_of : LockRequest → MvccLock
pessimistic_lock_of req = record {
  start_ts = req.start_version;
  primary = req.primary_lock;
  value = [];
  op = Op.pessimistic_lock;
  ttl = req.lock_ttl;
  for_update_ts = req.for_update_ts;
  txn_size = 0;
  min_commit_ts = req.min_commit_ts;
}

-- `!alreadyLocked || dec.lock.forUpdateTS < forUpdateTS`
abbrev pub must_write : Option MvccLock → ℕ → Bool
must_write none for_update_ts = true
must_write (some l) for_update_ts = ltb l.for_update_ts for_update_ts

-- The lock is written unless the key had to exist and does not.
unfoldable pub write_lock :
    LockRequest → Option MvccLock → Mutation → Option Bytes → LockKeyResult → LockOutcome
unfolding pessimistic_lock_of
write_lock req held m val result = record {
  error = none;
  results = result ∷ [];
  batch =
      if req.lock_only_if_exists && not (non_empty val)
      then []
      else if must_write held req.for_update_ts
      then put_lock m.key (pessimistic_lock_of req) ∷ []
      else [];
}

-- What follows the call of `checkConflictValue`.
unfoldable pub after_check : LockRequest → Option MvccLock → Mutation → Checked → LockOutcome
unfolding write_lock normal_result
after_check req held m (val, none) = write_lock req held m val (normal_result req val)
after_check req held m (val, some (conflict c)) =
    if req.force_lock && c.can_force_lock
    then write_lock req held m val (record {
      kind = result_locked_with_conflict;
      value = val;
      existence = non_empty val;
      locked_with_conflict_ts = c.conflict_commit_ts;
    })
    else refuse (conflict c)
after_check req held m (val, some e) = refuse e

-- The lock of another transaction.
abbrev pub foreign : Option MvccLock → ℕ → Option MvccLock
foreign none start_ts = none
foreign (some l) start_ts = if l.start_ts == start_ts then none else some l

-- The fingerprint of a key, `farm.Fingerprint64`, is a parameter, and so is the fuel of the deadlock
-- search. `none`: the search did not end.
module _ (fingerprint : Bytes → ℕ) (fuel : ℕ) where
  unfoldable pub pessimistic_lock_mutation :
      Entry → Detector → LockRequest → Mutation → Option (LockOutcome × Detector)
  unfolding after_check
  pessimistic_lock_mutation e d req m =
      let checked : Checked =
        check_conflict_value e.versions m req.for_update_ts req.start_version true level_off
          req.lock_only_if_exists req.force_lock in
      if req.lock_only_if_exists && not req.return_values
      then some (refuse lock_only_if_exists_unset, d)
      else elim (foreign e.lock req.start_version) [
        | none ↦ some (after_check req e.lock m checked, d)
        | some l ↦
            let (found, d') = detect fuel d req.start_version l.start_ts (fingerprint m.key) in
            elim found [
              | clear ↦ some (refuse (lock_err l m.key), d')
              | deadlock h ↦ some (refuse (deadlocked m.key l.start_ts h), d')
              | lost ↦ none
            ]
      ]

-- `errs`, `anyError`, `lCtx.results` and `batch` of the loop.
pub record LockProgress : Type 0 where
  pub errs : List (Option MvccError)
  pub any_error : Bool
  pub results : List LockKeyResult
  pub batch : List BatchOp

abbrev failed_result : LockKeyResult
failed_result = record {
  kind = result_failed;
  value = none;
  existence = false;
  locked_with_conflict_ts = 0;
}

unfoldable pub add_outcome :
    LockRequest → LockProgress → LockOutcome → Option MvccError → LockProgress
add_outcome req p o none = record {
  errs = p.errs ++ (none ∷ []);
  any_error = p.any_error;
  results = p.results ++ o.results;
  batch = p.batch ++ o.batch;
}
add_outcome req p o (some e) = record {
  errs = p.errs ++ (some e ∷ []);
  any_error = true;
  results = (p.results ++ o.results) ++ (if req.force_lock then failed_result ∷ [] else []);
  batch = p.batch ++ o.batch;
}

abbrev pub is_locked : Option MvccError → Bool
is_locked (some (locked l)) = true
is_locked _ = false

-- `kvrpcpb.PessimisticLockResponse`, its errors before they are converted to messages.
pub record LockResponse : Type 0 where
  pub results : List LockKeyResult
  pub errors : List (Option MvccError)
  pub values : List (Option Bytes)
  pub not_founds : List Bool

abbrev is_normal : LockResultType → Bool
is_normal result_normal = true
is_normal _ = false

abbrev all_normal : List LockKeyResult → Bool
all_normal [] = true
all_normal (r ∷ results) = is_normal r.kind && all_normal results

abbrev answered : LockRequest → List LockKeyResult → LockResponse
answered req results = record {
  results = if req.force_lock then results else [];
  errors = [];
  values = if not req.force_lock && req.return_values then map (λ r. r.value) results else [];
  not_founds =
      if not req.force_lock && (req.return_values || req.check_existence)
      then map (λ r. not r.existence) results
      else [];
}

abbrev refused : LockRequest → LockProgress → LockResponse
refused req p = record {
  results = if req.force_lock then p.results else [];
  errors = p.errs;
  values = [];
  not_founds = [];
}

module _ (L : Leveldb) (fingerprint : Bytes → ℕ) (fuel : ℕ) where
  open L use {Db, write}

  unfoldable pub lock_loop :
      Db → LockRequest → List Mutation → Detector → LockProgress → Option (LockProgress × Detector)
  unfolding add_outcome
  lock_loop db req [] d p = some (p, d)
  lock_loop db req (m ∷ ms) d p =
      elim (pessimistic_lock_mutation fingerprint fuel (read L db m.key) d req m) [
        | none ↦ none
        | some (o, d') ↦ elim (req.no_wait && is_locked o.error) [
          | true ↦ some (add_outcome req p o o.error, d')
          | false ↦ lock_loop db req ms d' (add_outcome req p o o.error)
        ]
      ]

  -- `none`: a panic of the source, or a deadlock search that does not end.
  unfoldable pub pessimistic_lock : Mvcc L → LockRequest → Option (Mvcc L × LockResponse)
  unfolding lock_loop
  pessimistic_lock s req =
      elim (lock_loop s.db req req.mutations s.deadlock_detector
        (record { errs = []; any_error = false; results = []; batch = [] })) [
          | none ↦ none
          | some (p, d) ↦
              if (not p.any_error || req.force_lock)
                && not (length p.results == length req.mutations)
              then none
              else if p.any_error
              then some (record s { deadlock_detector = d }, refused req p)
              else if not req.force_lock && not (all_normal p.results)
              then none
              else some (
                record { db = write s.db p.batch; deadlock_detector = d },
                answered req p.results,
              )
        ]
