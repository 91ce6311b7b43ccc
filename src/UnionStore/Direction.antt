-- ===== src/UnionStore/Direction.antt =====
-- Comparison in the direction of an iterator.
use client_go.Base.{
  ◌≡◌, refl, inl, inr, Bool, Bool-cases, List, [], ◌∷◌, Bytes, bytes_compare, bytes_compare_refl,
  ordering_cases, bytes_compare_eq, bytes_compare_gt, bytes_compare_trans, Ordering,
}
use client_go.UnionStore.{KeyValue, compare_in, negate}
use client_go.UnionStore.Merge.{First, AllLater}

negate_lt : (o : Ordering) → negate o ≡ Ordering.lt → o ≡ Ordering.gt
negate_lt Ordering.lt h = cc
negate_lt Ordering.eq h = cc
negate_lt Ordering.gt h = refl

negate_eq : (o : Ordering) → negate o ≡ Ordering.eq → o ≡ Ordering.eq
negate_eq Ordering.lt h = cc
negate_eq Ordering.eq h = refl
negate_eq Ordering.gt h = cc

negate_gt : (o : Ordering) → negate o ≡ Ordering.gt → o ≡ Ordering.lt
negate_gt Ordering.lt h = refl
negate_gt Ordering.eq h = cc
negate_gt Ordering.gt h = cc

compare_lt_gt : (x y : Bytes) → bytes_compare x y ≡ Ordering.lt → bytes_compare y x ≡ Ordering.gt
compare_lt_gt x y h = elim (ordering_cases (bytes_compare y x)) [
  | inl lt ↦ cc (bytes_compare_trans x y x h lt, bytes_compare_refl x)
  | inr (inl eq) ↦ cc (rw (bytes_compare_eq y x eq) at h, bytes_compare_refl x)
  | inr (inr gt) ↦ gt
]

module _ (reverse : Bool) where
  First-trans : (x y z : Bytes) → First reverse x y → First reverse y z → First reverse x z
  First-trans x y z hx hy = elim (Bool-cases reverse) [
    | inr ahead ↦ rw ahead (bytes_compare_trans x y z (rw ahead at hx) (rw ahead at hy))
    | inl back ↦
        let gx = negate_lt (bytes_compare x y) (rw back at hx) in
        let gy = negate_lt (bytes_compare y z) (rw back at hy) in
        let below = bytes_compare_trans z y x (bytes_compare_gt y z gy) (bytes_compare_gt x y gx) in
        rw (back, compare_lt_gt z x below) refl
  ]

  pub compare_in_eq : (x y : Bytes) → compare_in reverse x y ≡ Ordering.eq → x ≡ y
  compare_in_eq x y h = elim (Bool-cases reverse) [
    | inr ahead ↦ bytes_compare_eq x y (rw ahead at h)
    | inl back ↦ bytes_compare_eq x y (negate_eq (bytes_compare x y) (rw back at h))
  ]

  pub compare_in_gt : (x y : Bytes) → compare_in reverse x y ≡ Ordering.gt → First reverse y x
  compare_in_gt x y h = elim (Bool-cases reverse) [
    | inr ahead ↦ rw ahead (bytes_compare_gt x y (rw ahead at h))
    | inl back ↦ rw (back, compare_lt_gt x y (negate_gt (bytes_compare x y) (rw back at h))) refl
  ]

  pub All-later :
      (x y : Bytes) (es : List KeyValue)
      → First reverse x y
      → AllLater reverse y es
      → AllLater reverse x es
  All-later x y [] h later = tt
  All-later x y (e ∷ es) h later = (First-trans x y e.key h later.0, All-later x y es h later.1)
