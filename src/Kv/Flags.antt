-- ===== src/Kv/Flags.antt =====
-- kv/keyflags.go: the flags of a key in the membuffer. A `KeyFlags` is the set of its bits: a function
-- from bit positions to Booleans; a mask of the source is the list of its positions.
pub mod Assertions
use client_go.Base.{
  ℕ, ◌≡◌, refl, Bool, true, false, not, ◌==◌, ◌&&◌, ◌||◌, Bool-cases, inl, inr, if◌then◌else◌, List,
  [], ◌∷◌, ◌++◌, arith,
}

abbrev pub KeyFlags : Type 0
KeyFlags = ℕ → Bool

abbrev pub Mask : Type 0
Mask = List ℕ

abbrev pub in_mask : Mask → ℕ → Bool
in_mask [] bit = false
in_mask (b ∷ mask) bit = bit == b || in_mask mask bit

-- `f | mask`, `f &^ mask`, `f & mask` and `f & mask != 0`.
abbrev pub set_bits : KeyFlags → Mask → KeyFlags
set_bits f mask = λ bit. in_mask mask bit || f bit

abbrev pub clear_bits : KeyFlags → Mask → KeyFlags
clear_bits f mask = λ bit. not (in_mask mask bit) && f bit

abbrev pub keep_bits : KeyFlags → Mask → KeyFlags
keep_bits f mask = λ bit. in_mask mask bit && f bit

abbrev pub meets : KeyFlags → Mask → Bool
meets f [] = false
meets f (b ∷ mask) = f b || meets f mask

abbrev pub flag_presume_kne : ℕ
flag_presume_kne = 0

abbrev pub flag_key_locked : ℕ
flag_key_locked = 1

abbrev pub flag_need_locked : ℕ
flag_need_locked = 2

abbrev pub flag_key_locked_val_exist : ℕ
flag_key_locked_val_exist = 3

abbrev pub flag_need_check_exists : ℕ
flag_need_check_exists = 4

abbrev pub flag_prewrite_only : ℕ
flag_prewrite_only = 5

abbrev pub flag_ignored_in_2pc : ℕ
flag_ignored_in_2pc = 6

abbrev pub flag_readable : ℕ
flag_readable = 7

abbrev pub flag_newly_inserted : ℕ
flag_newly_inserted = 8

abbrev pub flag_assert_exist : ℕ
flag_assert_exist = 9

abbrev pub flag_assert_not_exist : ℕ
flag_assert_not_exist = 10

abbrev pub flag_need_constraint_check_in_prewrite : ℕ
flag_need_constraint_check_in_prewrite = 11

abbrev pub flag_previous_presume_kne : ℕ
flag_previous_presume_kne = 12

abbrev pub flag_key_locked_in_share_mode : ℕ
flag_key_locked_in_share_mode = 13

abbrev pub persistent_flags : Mask
persistent_flags =
    flag_key_locked ∷ flag_key_locked_val_exist ∷ flag_need_constraint_check_in_prewrite
    ∷ flag_key_locked_in_share_mode ∷ []

abbrev pub has_assert_exist : KeyFlags → Bool
has_assert_exist f = f flag_assert_exist && not (f flag_assert_not_exist)

abbrev pub has_assert_not_exist : KeyFlags → Bool
has_assert_not_exist f = f flag_assert_not_exist && not (f flag_assert_exist)

abbrev pub has_assert_unknown : KeyFlags → Bool
has_assert_unknown f = f flag_assert_exist && f flag_assert_not_exist

abbrev pub has_assertion_flags : KeyFlags → Bool
has_assertion_flags f = f flag_assert_exist || f flag_assert_not_exist

abbrev pub has_presume_key_not_exists : KeyFlags → Bool
has_presume_key_not_exists f = meets f (flag_presume_kne ∷ flag_previous_presume_kne ∷ [])

abbrev pub has_locked : KeyFlags → Bool
has_locked f = f flag_key_locked

abbrev pub has_locked_in_share_mode : KeyFlags → Bool
has_locked_in_share_mode f = f flag_key_locked_in_share_mode

abbrev pub has_need_locked : KeyFlags → Bool
has_need_locked f = f flag_need_locked

abbrev pub has_locked_value_exists : KeyFlags → Bool
has_locked_value_exists f = f flag_key_locked_val_exist

abbrev pub has_need_check_exists : KeyFlags → Bool
has_need_check_exists f = f flag_need_check_exists

abbrev pub has_prewrite_only : KeyFlags → Bool
has_prewrite_only f = f flag_prewrite_only

abbrev pub has_ignored_in_2pc : KeyFlags → Bool
has_ignored_in_2pc f = f flag_ignored_in_2pc

abbrev pub has_readable : KeyFlags → Bool
has_readable f = f flag_readable

abbrev pub has_need_constraint_check_in_prewrite : KeyFlags → Bool
has_need_constraint_check_in_prewrite f = f flag_need_constraint_check_in_prewrite

abbrev pub has_newly_inserted : KeyFlags → Bool
has_newly_inserted f = f flag_newly_inserted

abbrev pub and_persistent : KeyFlags → KeyFlags
and_persistent f = keep_bits f persistent_flags

pub data FlagsOp : Type 0 where
  set_presume_key_not_exists del_presume_key_not_exists set_key_locked del_key_locked : FlagsOp
  set_need_locked del_need_locked set_key_locked_value_exists : FlagsOp
  set_key_locked_value_not_exists del_need_check_exists set_prewrite_only : FlagsOp
  set_ignored_in_2pc set_readable set_newly_inserted set_assert_exist : FlagsOp
  set_assert_not_exist set_assert_unknown set_assert_none : FlagsOp
  set_need_constraint_check_in_prewrite del_need_constraint_check_in_prewrite : FlagsOp
  set_previous_presume_kne set_key_locked_in_share_mode set_key_locked_in_exclusive_mode : FlagsOp

-- The `switch` of `ApplyFlagsOps`.
unfoldable pub apply_flags_op : KeyFlags → FlagsOp → KeyFlags
apply_flags_op f set_presume_key_not_exists =
    set_bits f (flag_presume_kne ∷ flag_need_check_exists ∷ [])
apply_flags_op f del_presume_key_not_exists =
    clear_bits f (flag_presume_kne ∷ flag_need_check_exists ∷ [])
apply_flags_op f set_key_locked = set_bits f (flag_key_locked ∷ [])
apply_flags_op f del_key_locked = clear_bits f (flag_key_locked ∷ [])
apply_flags_op f set_need_locked = set_bits f (flag_need_locked ∷ [])
apply_flags_op f del_need_locked = clear_bits f (flag_need_locked ∷ [])
apply_flags_op f set_key_locked_value_exists =
    clear_bits (set_bits f (flag_key_locked_val_exist ∷ []))
      (flag_need_constraint_check_in_prewrite ∷ [])
apply_flags_op f del_need_check_exists = clear_bits f (flag_need_check_exists ∷ [])
apply_flags_op f set_key_locked_value_not_exists =
    clear_bits (clear_bits f (flag_key_locked_val_exist ∷ []))
      (flag_need_constraint_check_in_prewrite ∷ [])
apply_flags_op f set_prewrite_only = set_bits f (flag_prewrite_only ∷ [])
apply_flags_op f set_ignored_in_2pc = set_bits f (flag_ignored_in_2pc ∷ [])
apply_flags_op f set_readable = set_bits f (flag_readable ∷ [])
apply_flags_op f set_newly_inserted = set_bits f (flag_newly_inserted ∷ [])
apply_flags_op f set_assert_exist =
    set_bits (clear_bits f (flag_assert_not_exist ∷ [])) (flag_assert_exist ∷ [])
apply_flags_op f set_assert_not_exist =
    set_bits (clear_bits f (flag_assert_exist ∷ [])) (flag_assert_not_exist ∷ [])
apply_flags_op f set_assert_unknown =
    set_bits (set_bits f (flag_assert_not_exist ∷ [])) (flag_assert_exist ∷ [])
apply_flags_op f set_assert_none =
    clear_bits (clear_bits f (flag_assert_exist ∷ [])) (flag_assert_not_exist ∷ [])
apply_flags_op f set_need_constraint_check_in_prewrite =
    set_bits f (flag_need_constraint_check_in_prewrite ∷ [])
apply_flags_op f del_need_constraint_check_in_prewrite =
    clear_bits f (flag_need_constraint_check_in_prewrite ∷ [])
apply_flags_op f set_previous_presume_kne = set_bits f (flag_previous_presume_kne ∷ [])
apply_flags_op f set_key_locked_in_share_mode = set_bits f (flag_key_locked_in_share_mode ∷ [])
apply_flags_op f set_key_locked_in_exclusive_mode =
    clear_bits f (flag_key_locked_in_share_mode ∷ [])

unfoldable pub apply_flags_ops : KeyFlags → List FlagsOp → KeyFlags
unfolding apply_flags_op
apply_flags_ops f [] = f
apply_flags_ops f (op ∷ ops) = apply_flags_ops (apply_flags_op f op) ops
