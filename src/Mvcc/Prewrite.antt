-- ===== src/Mvcc/Prewrite.antt =====
-- `Prewrite` and `prewriteMutation` of mvcc_leveldb.go, for one key and for a request.
use client_go.Base.{
  ℕ, zero, suc, Bool, true, false, not, if◌then◌else◌, ltb, ◌==◌, ◌&&◌, ◌||◌, Option, none, some,
  List, [], ◌∷◌, ◌++◌, Bytes, bytes_eq,
}
use client_go.Mvcc.{
  MvccLock, MvccError, Mutation, Op, AssertionLevel, PessimisticAction, skip_pessimistic_check,
  Result, ok, err, abort, key_already_exist, is_pessimistic_lock, is_insert, is_check_not_exists,
  is_do_check, si,
}
use client_go.Mvcc.Entry.{Entry, BatchOp, put_lock, Leveldb, decode_entry}
use client_go.Mvcc.Read.{lock_err, get_value}
use client_go.Mvcc.Conflict.{Checked, check_conflict_value}

pub record PrewriteRequest : Type 0 where
  pub mutations : List Mutation
  pub primary_lock : Bytes
  pub start_version : ℕ
  pub for_update_ts : ℕ
  pub lock_ttl : ℕ
  pub min_commit_ts : ℕ
  pub txn_size : ℕ
  pub pessimistic_actions : List PessimisticAction
  pub assertion_level : AssertionLevel
  pub resolved_locks : List ℕ

abbrev pub stored_op : Op → Op
stored_op Op.insert = Op.put
stored_op op = op

abbrev pub max : ℕ → ℕ → ℕ
max a b = if ltb a b then b else a

-- The lock that is put in the batch.
unfoldable pub new_lock : Mutation → ℕ → Bytes → ℕ → ℕ → ℕ → MvccLock
new_lock m start_ts primary ttl txn_size min_commit_ts = record {
  start_ts = start_ts;
  primary = primary;
  value = m.value;
  op = stored_op m.op;
  ttl = ttl;
  for_update_ts = 0;
  txn_size = txn_size;
  min_commit_ts = if bytes_eq primary m.key then min_commit_ts else 0;
}

-- The end of `prewriteMutation`, behind the call of `checkConflictValue`.
unfoldable pub put_checked : Checked → Bytes → MvccLock → Result (List BatchOp)
put_checked (v, none) key l = ok (put_lock key l ∷ [])
put_checked (v, some e) key l = err e

-- What goes into the batch.
unfoldable pub prewrite_mutation :
    Entry
    → Mutation
    → ℕ
    → Bytes
    → ℕ
    → ℕ
    → PessimisticAction
    → ℕ
    → AssertionLevel
    → Result (List BatchOp)
unfolding put_checked
prewrite_mutation e m start_ts primary ttl txn_size action min_commit_ts level =
    let checked : Checked =
      check_conflict_value e.versions m start_ts start_ts false level false false in
    elim e.lock [
      | none ↦
          if is_do_check action
          then err abort
          else put_checked checked m.key (new_lock m start_ts primary ttl txn_size min_commit_ts)
      | some l ↦
          if not (l.start_ts == start_ts)
          then err (lock_err (if is_do_check action then record l { ttl = 0 } else l) m.key)
          else if not (is_pessimistic_lock l.op)
          then ok []
          else put_checked checked m.key (
              new_lock m start_ts primary (max ttl l.ttl) txn_size
                (max min_commit_ts l.min_commit_ts))
    ]

-- `errs`, `batch` and `anyError` of the loop.
pub record Progress : Type 0 where
  pub errs : List (Option MvccError)
  pub batch : List BatchOp
  pub any_error : Bool

unfoldable pub add_result : Progress → Result (List BatchOp) → Progress
add_result p (ok ops) = record p { errs = p.errs ++ (none ∷ []); batch = p.batch ++ ops }
add_result p (err e) = record p { errs = p.errs ++ (some e ∷ []); any_error = true }

abbrev is_some : Option MvccError → Bool
is_some none = false
is_some (some x) = true

-- The check that a key to be inserted does not exist.
unfoldable pub check_insert : Entry → Mutation → ℕ → List ℕ → Option MvccError
check_insert e m start_ts resolved = elim (get_value e m.key start_ts si resolved) [
  | err x ↦ some x
  | ok none ↦ none
  | ok (some v) ↦ some (key_already_exist m.key)
]

-- One round of the loop of `Prewrite`.
unfoldable pub prewrite_one :
    Entry → PrewriteRequest → PessimisticAction → Mutation → Progress → Progress
unfolding add_result check_insert
prewrite_one e req action m p =
    elim (if (is_insert m.op || is_check_not_exists m.op) && req.for_update_ts == 0
      then check_insert e m req.start_version req.resolved_locks
      else none) [
        | some x ↦ add_result p (err x)
        | none ↦
            if is_check_not_exists m.op
            then p
            else add_result p (
                prewrite_mutation e m req.start_version req.primary_lock req.lock_ttl req.txn_size
                  action req.min_commit_ts req.assertion_level)
      ]

-- `req.PessimisticActions[i]`; `none` where Go would panic.
abbrev pub action_at : List PessimisticAction → ℕ → Option PessimisticAction
action_at [] i = none
action_at (a ∷ actions) zero = some a
action_at (a ∷ actions) (suc i) = action_at actions i

abbrev pub action_for : List PessimisticAction → ℕ → Option PessimisticAction
action_for [] i = some skip_pessimistic_check
action_for (a ∷ actions) i = action_at (a ∷ actions) i

-- The rounds that `continue` before the action is looked up.
unfoldable pub skips_action : Entry → PrewriteRequest → Mutation → Bool
skips_action e req m =
    is_check_not_exists m.op
    || (is_insert m.op
        && req.for_update_ts == 0
        && is_some (check_insert e m req.start_version req.resolved_locks))

-- A round with the action that was looked up, if the round gets there; `none` is the panic.
unfoldable pub prewrite_round :
    Entry → PrewriteRequest → Option PessimisticAction → Mutation → Progress → Option Progress
prewrite_round e req (some action) m p = some (prewrite_one e req action m p)
prewrite_round e req none m p =
    if skips_action e req m then some (prewrite_one e req skip_pessimistic_check m p) else none

module _ (L : Leveldb) where
  open L use {Db, seek, write}

  -- The iterator of a key, as what it decodes.
  unfoldable pub read : Db → Bytes → Entry
  read db key = decode_entry key (seek db key)

  unfoldable pub prewrite_loop :
      Db → PrewriteRequest → List Mutation → ℕ → Progress → Option Progress
  prewrite_loop db req [] i p = some p
  prewrite_loop db req (m ∷ ms) i p =
      elim (prewrite_round (read db m.key) req (action_for req.pessimistic_actions i) m p) [
        | none ↦ none
        | some p' ↦ prewrite_loop db req ms (suc i) p'
      ]

  -- The database after the call, and the errors of the mutations. `none` is a panic.
  unfoldable pub prewrite : Db → PrewriteRequest → Option (Db × List (Option MvccError))
  unfolding prewrite_loop
  prewrite db req =
      elim (prewrite_loop db req req.mutations 0
        (record { errs = []; batch = []; any_error = false })) [
          | none ↦ none
          | some p ↦ some ((if p.any_error then db else write db p.batch), p.errs)
        ]
