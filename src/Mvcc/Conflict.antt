-- ===== src/Mvcc/Conflict.antt =====
-- `checkConflictValue` of mvcc_leveldb.go: write conflicts, rollback records and assertions.
use client_go.Base.{
  ℕ, Bool, true, false, not, if◌then◌else◌, ltb, ◌==◌, ◌&&◌, ◌||◌, Option, none, some, List, [],
  ◌∷◌, Bytes,
}
use client_go.Mvcc.{
  MvccValue, ValueType, type_put, type_delete, type_rollback, type_lock, MvccError, WriteConflict,
  conflict, already_rollbacked, key_already_exist, assertion_failed, Mutation, AssertionLevel,
  level_off, is_exist, is_not_exist, is_off, is_pessimistic_lock, is_rollback, is_data,
}

-- The parameters of the call, and what is decided before the loop.
pub record Params : Type 0 where
  pub mutation : Mutation
  pub start_ts : ℕ
  pub get_val : Bool
  pub assertion_level : AssertionLevel
  pub lock_only_if_exists : Bool
  pub write_conflict : Option WriteConflict

pub record Flags : Type 0 where
  pub need_get_val : Bool
  pub need_check_should_not_exist : Bool
  pub need_check_rollback : Bool
  pub ret_val : Option Bytes

-- Go's pair of a value and an error; `none` is `nil`.
abbrev pub Checked : Type 0
Checked = Option Bytes × Option MvccError

pub data Step : Type 0 where
  stop : MvccError → Step
  leave : Flags → Step
  more : Flags → Step

abbrev conflict_or : Option WriteConflict → MvccError → MvccError
conflict_or none e = e
conflict_or (some c) e = conflict c

abbrev pub is_none {ℓ} : {A : Type ℓ} → Option A → Bool
is_none none = true
is_none (some a) = false

abbrev need_check_assertion : Params → Bool
need_check_assertion p =
    (is_exist p.mutation.assertion || is_not_exist p.mutation.assertion)
    && not (is_pessimistic_lock p.mutation.op)
    && not (is_off p.assertion_level)

exists_failed : Params → MvccValue → MvccError
exists_failed p v =
    assertion_failed p.start_ts p.mutation.key p.mutation.assertion v.start_ts v.commit_ts

missing_failed : Params → MvccError
missing_failed p = assertion_failed p.start_ts p.mutation.key p.mutation.assertion 0 0

-- The `switch` on the type of the version: an error, or the new value of
-- `needCheckShouldNotExistForPessimisticLock`.
pub data Switched : Type 0 where
  fails : MvccError → Switched
  keeps : Bool → Switched

switch_type : Params → Flags → MvccValue → ValueType → Switched
unfolding exists_failed
switch_type p fl v type_put =
    if fl.need_check_should_not_exist
    then fails (conflict_or p.write_conflict (key_already_exist p.mutation.key))
    else if need_check_assertion p && is_not_exist p.mutation.assertion
    then fails (exists_failed p v)
    else keeps fl.need_check_should_not_exist
switch_type p fl v type_lock =
    if fl.need_check_should_not_exist
    then fails (conflict_or p.write_conflict (key_already_exist p.mutation.key))
    else if need_check_assertion p && is_not_exist p.mutation.assertion
    then fails (exists_failed p v)
    else keeps fl.need_check_should_not_exist
switch_type p fl v type_delete =
    if p.lock_only_if_exists && not (is_none p.write_conflict)
    then fails (conflict_or p.write_conflict (key_already_exist p.mutation.key))
    else keeps false
switch_type p fl v type_rollback = keeps fl.need_check_should_not_exist

-- The rest of the round: the value to return, and the test for leaving the loop.
after_switch : Flags → MvccValue → Bool → Bool → Step
after_switch fl v should_not_exist check_rollback =
    let takes : Bool = fl.need_get_val && is_data v.value_type in
    let fl' : Flags = record {
      need_get_val = fl.need_get_val && not takes;
      need_check_should_not_exist = should_not_exist;
      need_check_rollback = check_rollback;
      ret_val = if takes then some v.value else fl.ret_val;
    } in
    if not should_not_exist && not fl'.need_get_val && not check_rollback
    then leave fl'
    else more fl'

-- One round of the loop, on the version that was decoded last.
unfoldable pub conflict_step : Params → Flags → MvccValue → Step
unfolding switch_type after_switch
conflict_step p fl v =
    let check_rollback : Bool = fl.need_check_rollback && not (ltb v.commit_ts p.start_ts) in
    if fl.need_check_rollback && is_rollback v.value_type && v.commit_ts == p.start_ts
    then stop (already_rollbacked p.start_ts p.mutation.key)
    else elim (switch_type p fl v v.value_type) [
      | fails e ↦ stop e
      | keeps should_not_exist ↦ after_switch fl v should_not_exist check_rollback
    ]

abbrev as_error : Option WriteConflict → Option MvccError
as_error none = none
as_error (some c) = some (conflict (record c { can_force_lock = true }))

-- What follows the loop.
finish : Params → Flags → Checked
finish p fl = (if p.get_val then fl.ret_val else none, as_error p.write_conflict)

-- The loop found no further version.
no_more : Params → Flags → Checked
unfolding finish missing_failed
no_more p fl =
    if is_exist p.mutation.assertion && not (is_off p.assertion_level)
    then (none, some (missing_failed p))
    else finish p fl

unfoldable pub conflict_loop : Params → Flags → MvccValue → List (ℕ × MvccValue) → Checked
unfolding no_more finish conflict_step
conflict_loop p fl v [] = elim (conflict_step p fl v) [
  | stop e ↦ (none, some e)
  | leave fl' ↦ finish p fl'
  | more fl' ↦ no_more p fl'
]
conflict_loop p fl v ((ver, w) ∷ vs) = elim (conflict_step p fl v) [
  | stop e ↦ (none, some e)
  | leave fl' ↦ finish p fl'
  | more fl' ↦ conflict_loop p fl' w vs
]

unfoldable pub check_conflict_value :
    List (ℕ × MvccValue) → Mutation → ℕ → ℕ → Bool → AssertionLevel → Bool → Bool → Checked
unfolding conflict_loop
check_conflict_value [] m for_update_ts start_ts get_val level lock_only_if_exists allow =
    if is_exist m.assertion && not (is_off level) && not (is_pessimistic_lock m.op)
    then (none, some (assertion_failed start_ts m.key m.assertion 0 0))
    else (none, none)
check_conflict_value ((ver, v) ∷ vs) m for_update_ts start_ts get_val level lock_only_if_exists
      allow =
    let found : WriteConflict = record {
      start_ts = for_update_ts;
      conflict_ts = v.start_ts;
      conflict_commit_ts = v.commit_ts;
      key = m.key;
      can_force_lock = false;
    } in
    let params = λ (level' : AssertionLevel) (c : Option WriteConflict).
      let p : Params = record {
        mutation = m;
        start_ts = start_ts;
        get_val = get_val;
        assertion_level = level';
        lock_only_if_exists = lock_only_if_exists;
        write_conflict = c;
      } in
      p in
    let flags : Flags = record {
      need_get_val = get_val;
      need_check_should_not_exist = is_not_exist m.assertion && is_pessimistic_lock m.op;
      need_check_rollback = true;
      ret_val = none;
    } in
    if ltb for_update_ts v.commit_ts
    then (if not allow
        then (none, some (conflict found))
        else conflict_loop (params level_off (some found)) flags v vs)
    else conflict_loop (params level none) flags v vs
