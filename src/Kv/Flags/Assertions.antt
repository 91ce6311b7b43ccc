-- ===== src/Kv/Flags/Assertions.antt =====
-- What a sequence of operations leaves of the assertion.
use client_go.Base.{arith, ◌≡◌, refl, ◌∙◌, Bool, true, false, List, [], ◌∷◌}
use client_go.Kv.Flags.{
  KeyFlags, FlagsOp, apply_flags_op, apply_flags_ops, has_assert_exist, has_assert_not_exist,
  has_assert_unknown, has_assertion_flags, set_assert_exist, set_assert_not_exist,
  set_assert_unknown, set_assert_none, flag_assert_exist, flag_assert_not_exist,
}

-- The assertion on a key: the four choices of the two bits.
pub data KeyAssertion : Type 0 where
  unset exists absent unknown : KeyAssertion

abbrev pub of_bits : Bool → Bool → KeyAssertion
of_bits true true = unknown
of_bits true false = exists
of_bits false true = absent
of_bits false false = unset

abbrev pub assertion_of : KeyFlags → KeyAssertion
assertion_of f = of_bits (f flag_assert_exist) (f flag_assert_not_exist)

-- The assertion that the last of the operations on assertions makes.
abbrev pub last_assertion : KeyAssertion → List FlagsOp → KeyAssertion
last_assertion a [] = a
last_assertion a (set_assert_exist ∷ ops) = last_assertion exists ops
last_assertion a (set_assert_not_exist ∷ ops) = last_assertion absent ops
last_assertion a (set_assert_unknown ∷ ops) = last_assertion unknown ops
last_assertion a (set_assert_none ∷ ops) = last_assertion unset ops
last_assertion a (_ ∷ ops) = last_assertion a ops

abbrev pub is_exists : KeyAssertion → Bool
is_exists exists = true
is_exists _ = false

abbrev pub is_absent : KeyAssertion → Bool
is_absent absent = true
is_absent _ = false

abbrev pub is_unknown : KeyAssertion → Bool
is_unknown unknown = true
is_unknown _ = false

abbrev pub is_set : KeyAssertion → Bool
is_set unset = false
is_set _ = true

apply_flags_op-last :
    (f : KeyFlags) (op : FlagsOp) (ops : List FlagsOp)
    → last_assertion (assertion_of (apply_flags_op f op)) ops
      ≡ last_assertion (assertion_of f) (op ∷ ops)
unfolding apply_flags_op
apply_flags_op-last f op ops = ground arith

assertion_of-apply_flags_ops :
    (f : KeyFlags) (ops : List FlagsOp)
    → assertion_of (apply_flags_ops f ops) ≡ last_assertion (assertion_of f) ops
unfolding apply_flags_ops
assertion_of-apply_flags_ops f [] = refl
assertion_of-apply_flags_ops f (op ∷ ops) =
    assertion_of-apply_flags_ops (apply_flags_op f op) ops ∙ apply_flags_op-last f op ops

has-assertion_of :
    (f : KeyFlags)
    → (has_assert_exist f ≡ is_exists (assertion_of f))
      × (has_assert_not_exist f ≡ is_absent (assertion_of f))
      × (has_assert_unknown f ≡ is_unknown (assertion_of f))
      × (has_assertion_flags f ≡ is_set (assertion_of f))
has-assertion_of f = ground arith

-- After any sequence of operations the four tests of the assertion answer for the last operation of
-- the sequence that is about the assertion, or for the flags of before if there is none; no other
-- operation has an effect on them.
pub has-apply_flags_ops :
    (f : KeyFlags) (ops : List FlagsOp)
    → (has_assert_exist (apply_flags_ops f ops) ≡ is_exists (last_assertion (assertion_of f) ops))
      × (has_assert_not_exist (apply_flags_ops f ops)
          ≡ is_absent (last_assertion (assertion_of f) ops))
      × (has_assert_unknown (apply_flags_ops f ops)
          ≡ is_unknown (last_assertion (assertion_of f) ops))
      × (has_assertion_flags (apply_flags_ops f ops) ≡ is_set (last_assertion (assertion_of f) ops))
has-apply_flags_ops f ops =
    rw (← assertion_of-apply_flags_ops f ops) (has-assertion_of (apply_flags_ops f ops))
