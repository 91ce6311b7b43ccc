-- ===== src/Tests/Keys.antt =====
-- Concrete keys and batches of keys.
use client_go.Base.{
  ◌+◌, ◌≡◌, ◌⊎◌, List, [], ◌∷◌, ◌++◌, Bytes, Ordering, All, true, false, suc, replicate, arith,
}
use client_go.Kv.{prefix_next_key, cmp_key, all_max, prefix_next_key_above, prefix_next_key_skips}
use client_go.Kv.Flags.{
  KeyFlags, FlagsOp, apply_flags_ops, has_assert_exist, has_assert_not_exist, has_assert_unknown,
  has_assertion_flags, set_key_locked, set_assert_exist, set_key_locked_in_share_mode,
}
use client_go.Kv.Flags.Assertions.{
  assertion_of, last_assertion, is_exists, is_absent, is_unknown, is_set, has-apply_flags_ops,
}
use client_go.KvRpc.{RegionVerId, append_batches, append_key_batches}
use client_go.KvRpc.Batches.{all_keys, append_key_batches_cut, CutAt}
use client_go.KvRpc.Sizes.{append_batches-IsCut, IsCut, HeavyButLast}

abbrev region : RegionVerId
region = record { id = 1; conf_ver = 1; ver = 1 }

abbrev three_keys : List Bytes
three_keys = (1 ∷ []) ∷ (2 ∷ []) ∷ (3 ∷ 4 ∷ []) ∷ []

prefix_next_key_above_example :
    ((all_max (7 ∷ 255 ∷ []) ≡ false)
      × (cmp_key ((7 ∷ 255 ∷ []) ++ (9 ∷ [])) (prefix_next_key (7 ∷ 255 ∷ [])) ≡ Ordering.lt))
    ⊎ ((all_max (7 ∷ 255 ∷ []) ≡ true) × (prefix_next_key (7 ∷ 255 ∷ []) ≡ []))
prefix_next_key_above_example =
    prefix_next_key_above (7 ∷ 255 ∷ []) (9 ∷ []) (omega arith, (omega arith, tt))

prefix_next_key_skips_example :
    (cmp_key (((1 ∷ []) ++ (2 ∷ replicate (suc 0) 0xff)) ++ (9 ∷ [])) ((1 ∷ []) ++ ((2 + 1) ∷ []))
      ≡ Ordering.lt)
    × (cmp_key
          ((1 ∷ []) ++ ((2 + 1) ∷ []))
          (prefix_next_key ((1 ∷ []) ++ (2 ∷ replicate (suc 0) 0xff)))
        ≡ Ordering.lt)
prefix_next_key_skips_example = prefix_next_key_skips (1 ∷ []) (9 ∷ []) 2 0 (omega arith)

append_key_batches_cut_example :
    (all_keys (append_key_batches region 1 [] three_keys) ≡ three_keys)
    × CutAt region 1 (append_key_batches region 1 [] three_keys)
append_key_batches_cut_example = append_key_batches_cut region 1 three_keys

append_batches-IsCut_example :
    (all_keys (append_batches region (λ k. k) (λ k. 0) 4 [] three_keys) ≡ three_keys)
    × All
        (IsCut region (λ k. k) (λ k. 0) 4)
        (append_batches region (λ k. k) (λ k. 0) 4 [] three_keys)
    × HeavyButLast region
        (λ k. k)
        (λ k. 0)
        4
        (append_batches region (λ k. k) (λ k. 0) 4 [] three_keys)
append_batches-IsCut_example =
    append_batches-IsCut region (λ k. k) (λ k. 0) 4 three_keys (omega arith)

abbrev no_flags : KeyFlags
no_flags bit = false

abbrev three_ops : List FlagsOp
three_ops = set_key_locked ∷ set_assert_exist ∷ set_key_locked_in_share_mode ∷ []

has-apply_flags_ops_example :
    (has_assert_exist (apply_flags_ops no_flags three_ops)
      ≡ is_exists (last_assertion (assertion_of no_flags) three_ops))
    × (has_assert_not_exist (apply_flags_ops no_flags three_ops)
        ≡ is_absent (last_assertion (assertion_of no_flags) three_ops))
    × (has_assert_unknown (apply_flags_ops no_flags three_ops)
        ≡ is_unknown (last_assertion (assertion_of no_flags) three_ops))
    × (has_assertion_flags (apply_flags_ops no_flags three_ops)
        ≡ is_set (last_assertion (assertion_of no_flags) three_ops))
has-apply_flags_ops_example = has-apply_flags_ops no_flags three_ops
