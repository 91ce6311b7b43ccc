-- ===== src/RegionIndex/Tree.antt =====
-- The regions that are left when the ones that a new region meets are deleted.
use client_go.Base.{
  ℕ, ◌≡◌, refl, ◌⊎◌, inl, inr, Bool, true, false, Bool-cases, Option-cases, if◌then◌else◌, ltb,
  ◌&&◌, ◌||◌, none, some, List, [], ◌∷◌, Bytes, bytes_compare, bytes_eq, bytes_eq_refl,
  bytes_compare_eq, bytes_compare_trans, ordering_cases, Ordering, All,
}
use mathlib.Core.Path.{subst}
use client_go.RegionIndex.{
  Region, BTree, is_unbounded, less, less_or_equal, contains_key, intersecting, from_key, down_from,
  put_region, drop_region, AllAbove, IsSorted, delete_all,
}

less-lt : (x y : Bytes) → less x y ≡ true → bytes_compare x y ≡ Ordering.lt
less-lt x y h = elim (ordering_cases (bytes_compare x y)) [
  | inl lt ↦ lt
  | inr (inl eq) ↦ absurd (cc (rw (eq, less) at h))
  | inr (inr gt) ↦ absurd (cc (rw (gt, less) at h))
]

-- What is not before an end is after what is before it.
after_end :
    (x key end : Bytes)
    → less x end ≡ false
    → bytes_compare key end ≡ Ordering.lt
    → less_or_equal x key ≡ false
after_end x key end far near = elim (ordering_cases (bytes_compare x key)) [
  | inl lt ↦ absurd (cc (rw (bytes_compare_trans x key end lt near, less) at far))
  | inr (inl eq) ↦ absurd (cc (rw (bytes_compare_eq x key eq, near, less) at far))
  | inr (inr gt) ↦ rw (gt, less_or_equal) refl
]

-- A region that does not start in the range of `r`.
abbrev pub IsClear : Region → Region → Type 0
IsClear r x =
    (bytes_compare x.start_key r.start_key ≡ Ordering.lt)
    ⊎ ((is_unbounded r.end_key ≡ false) × (less x.start_key r.end_key ≡ false))

abbrev Doomed : List Region → Region → Type 0
Doomed [] x = ⊥
Doomed (d ∷ ds) x = (d.start_key ≡ x.start_key) ⊎ Doomed ds x

abbrev Settled : Region → List Region → Region → Type 0
Settled r ds x = IsClear r x ⊎ Doomed ds x

far_away :
    (r : Region) (key : Bytes) (ds items : List Region)
    → is_unbounded r.end_key ≡ false
    → less key r.end_key ≡ false
    → AllAbove key items
    → All (Settled r ds) items
far_away r key ds [] bounded far above = tt
far_away r key ds (x ∷ items) bounded far above =
    let away : less x.start_key r.end_key ≡ false = elim (Bool-cases (less x.start_key r.end_key)) [
      | inr further ↦ further
      | inl near ↦ absurd (
          cc (
            rw
              (
                bytes_compare_trans key x.start_key r.end_key above.0
                    (less-lt x.start_key r.end_key near),
                less,
              )
              at far))
    ] in
    (inl (inr (bounded, away)), far_away r key ds items bounded far above.1)

more_doomed :
    (r d : Region) (ds items : List Region)
    → All (Settled r ds) items
    → All (Settled r (d ∷ ds)) items
more_doomed r d ds [] h = tt
more_doomed r d ds (x ∷ items) (inl free, h) = (inl free, more_doomed r d ds items h)
more_doomed r d ds (x ∷ items) (inr bad, h) = (inr (inr bad), more_doomed r d ds items h)

taken :
    (r x : Region) (ver : ℕ) (items ds : List Region)
    → ((deleted : List Region)
        → IsSorted items
        → intersecting r ver items ≡ some deleted
        → All (Settled r deleted) items)
    → IsSorted items
    → (if ltb ver x.ver_id.ver
        then none
        else elim (intersecting r ver items) [ none ↦ none | some deleted ↦ some (x ∷ deleted) ])
      ≡ some ds
    → All (Settled r ds) (x ∷ items)
taken r x ver items ds later s e = elim (Bool-cases (ltb ver x.ver_id.ver)) [
  | inl newer ↦ absurd (cc (rw newer at e))
  | inr fine ↦ elim (Option-cases (intersecting r ver items)) [
    | inl stale ↦ absurd (cc (rw (fine, stale) at e))
    | inr (deleted, found) ↦
        let same : x ∷ deleted ≡ ds = cc (rw (fine, found) at e) in
        subst (λ (ds' : List Region). All (Settled r ds') (x ∷ items)) same
          (inr (inl refl), more_doomed r x deleted items (later deleted s found))
  ]
]

intersecting-Settled :
    (r : Region) (ver : ℕ) (items ds : List Region)
    → IsSorted items
    → intersecting r ver items ≡ some ds
    → All (Settled r ds) items
unfolding intersecting
intersecting-Settled r ver [] ds s h = tt
intersecting-Settled r ver (x ∷ items) ds s h = elim (Bool-cases (is_unbounded r.end_key)) [
  | inl open_end ↦ taken r x ver items ds (intersecting-Settled r ver items) s.1 (rw open_end at h)
  | inr bounded ↦ elim (Bool-cases (less x.start_key r.end_key)) [
    | inr far ↦ (inl (inr (bounded, far)), far_away r x.start_key ds items bounded far s.0)
    | inl near ↦
        taken r x ver items ds (intersecting-Settled r ver items) s.1 (rw (bounded, near) at h)
  ]
]

from_key-Settled :
    (r : Region) (ver : ℕ) (items ds : List Region)
    → IsSorted items
    → intersecting r ver (from_key r.start_key items) ≡ some ds
    → All (Settled r ds) items
from_key-Settled r ver [] ds s h = tt
from_key-Settled r ver (x ∷ items) ds s h = elim (Bool-cases (less x.start_key r.start_key)) [
  | inl before ↦ (
    inl (inl (less-lt x.start_key r.start_key before)),
    from_key-Settled r ver items ds s.1 (rw before at h),
  )
  | inr behind ↦ intersecting-Settled r ver (x ∷ items) ds s (rw behind at h)
]

drop_region-Settled :
    (r d : Region) (ds items : List Region)
    → All (Settled r (d ∷ ds)) items
    → All (Settled r ds) (drop_region d.start_key items)
drop_region-Settled r d ds [] h = tt
drop_region-Settled r d ds (x ∷ items) (h, later) =
    let rest = drop_region-Settled r d ds items later in
    elim (Bool-cases (bytes_eq x.start_key d.start_key)) [
      | inl same ↦ rw same rest
      | inr differ ↦ rw differ (
        elim h [
          | inl free ↦ inl free
          | inr (inl e) ↦ absurd (cc (differ, e, bytes_eq_refl d.start_key))
          | inr (inr bad) ↦ inr bad
        ],
        rest,
      )
    ]

all-IsClear : (r : Region) (items : List Region) → All (Settled r []) items → All (IsClear r) items
all-IsClear r [] h = tt
all-IsClear r (x ∷ items) (inl free, h) = (free, all-IsClear r items h)
all-IsClear r (x ∷ items) (inr bad, h) = absurd bad

and_left : (b c : Bool) → (b && c) ≡ true → b ≡ true
and_left true c h = refl
and_left false c h = cc

and_right : (b c : Bool) → (b && c) ≡ true → c ≡ true
and_right true c h = h
and_right false c h = cc

or_left : (b c : Bool) → (b || c) ≡ true → c ≡ false → b ≡ true
or_left true c h k = refl
or_left false c h k = cc

less_or_equal_before :
    (x y key : Bytes)
    → bytes_compare x y ≡ Ordering.lt
    → less_or_equal y key ≡ true
    → less_or_equal x key ≡ true
less_or_equal_before x y key h k = elim (ordering_cases (bytes_compare y key)) [
  | inl lt ↦ rw (bytes_compare_trans x y key h lt, less_or_equal) refl
  | inr (inl eq) ↦ rw (← bytes_compare_eq y key eq) (rw (h, less_or_equal) refl)
  | inr (inr gt) ↦ absurd (cc (rw (gt, less_or_equal) at k))
]

beyond :
    (r x : Region) (key : Bytes)
    → IsClear r x
    → contains_key r key ≡ true
    → ¬ (bytes_compare x.start_key r.start_key ≡ Ordering.lt)
    → less_or_equal x.start_key key ≡ false
beyond r x key (inl before) c n = absurd (n before)
beyond r x key (inr (bounded, far)) c n =
    let near : less key r.end_key ≡ true =
      or_left (less key r.end_key) (is_unbounded r.end_key)
        (and_right (less_or_equal r.start_key key) (less key r.end_key || is_unbounded r.end_key) c)
        bounded in
    after_end x.start_key key r.end_key far (less-lt key r.end_key near)

put_later :
    (r x : Region) (items : List Region)
    → bytes_compare x.start_key r.start_key ≡ Ordering.lt
    → put_region r (x ∷ items) ≡ x ∷ put_region r items
put_later r x items h = rw (h, put_region) refl

put_here :
    (r x : Region) (items : List Region)
    → bytes_compare x.start_key r.start_key ≡ Ordering.gt
    → put_region r (x ∷ items) ≡ r ∷ (x ∷ items)
put_here r x items h = rw (h, put_region) refl

-- The newest item at or before a key of the region is the region, once it is put where no other
-- region starts in its range.
pub down_from-put_region :
    (r : Region) (key : Bytes) (items above : List Region)
    → All (IsClear r) items
    → contains_key r key ≡ true
    → (rest : List Region) × (down_from key (put_region r items) above ≡ r ∷ rest)
down_from-put_region r key [] above h c =
    let low : less_or_equal r.start_key key ≡ true =
      and_left (less_or_equal r.start_key key) (less key r.end_key || is_unbounded r.end_key) c in
    (above, rw low refl)
down_from-put_region r key (x ∷ items) above (free, h) c =
    let low : less_or_equal r.start_key key ≡ true =
      and_left (less_or_equal r.start_key key) (less key r.end_key || is_unbounded r.end_key) c in
    elim (ordering_cases (bytes_compare x.start_key r.start_key)) [
      | inl lt ↦
          let (rest, found) = down_from-put_region r key items (x ∷ above) h c in
          (
            rest,
            rw (put_later r x items lt, less_or_equal_before x.start_key r.start_key key lt low)
                found,
          )
      | inr (inl eq) ↦
          let far : less_or_equal x.start_key key ≡ false =
            beyond r x key free c (λ lt. cc (lt, eq)) in
          absurd (cc (rw (bytes_compare_eq x.start_key r.start_key eq) at far, low))
      | inr (inr gt) ↦
          let far : less_or_equal x.start_key key ≡ false =
            beyond r x key free c (λ lt. cc (lt, gt)) in
          (above, rw (put_here r x items gt, low, far) refl)
    ]

module _ (B : BTree) where
  open B use {Tree}

  delete_all-IsClear :
      (r : Region) (t : Tree) (ds : List Region)
      → All (Settled r ds) (B.items t)
      → All (IsClear r) (B.items (delete_all B t ds))
  unfolding delete_all
  delete_all-IsClear r t [] h = all-IsClear r (B.items t) h
  delete_all-IsClear r t (d ∷ ds) h =
      delete_all-IsClear r (B.delete t d.start_key) ds
        (rw (B.delete-items t d.start_key) (drop_region-Settled r d ds (B.items t) h))

  pub removed-IsClear :
      (r : Region) (ver : ℕ) (t : Tree) (ds : List Region)
      → intersecting r ver (B.ascend_greater_or_equal t r.start_key) ≡ some ds
      → All (IsClear r) (B.items (delete_all B t ds))
  removed-IsClear r ver t ds h = delete_all-IsClear r t ds (
      from_key-Settled r ver (B.items t) ds (B.items-IsSorted t)
        (rw (B.ascend-items t r.start_key) at h))
