-- ===== src/Tests/Regions.antt =====
-- The region index over sorted lists.
use client_go.Base.{
  ℕ, ◌==◌, ◌≡◌, refl, inl, inr, Bool-cases, if◌then◌else◌, none, some, List, [], ◌∷◌, Bytes,
  bytes_compare, bytes_eq, bytes_compare_eq, bytes_compare_gt, bytes_compare_trans, ordering_cases,
  Ordering,
}
use client_go.RegionIndex.{
  Region, BTree, AllAbove, IsSorted, from_key, down_from, put_region, drop_region, RegionIndexMu,
}

AllAbove-put :
    (key : Bytes) (r : Region) (items : List Region)
    → bytes_compare key r.start_key ≡ Ordering.lt
    → AllAbove key items
    → AllAbove key (put_region r items)
AllAbove-put key r [] h a = (h, tt)
AllAbove-put key r (x ∷ items) h a = elim (ordering_cases (bytes_compare x.start_key r.start_key)) [
  | inl lt ↦ rw (lt, put_region) (a.0, AllAbove-put key r items h a.1)
  | inr (inl eq) ↦ rw (eq, put_region) (h, a.1)
  | inr (inr gt) ↦ rw (gt, put_region) (h, a)
]

AllAbove-trans :
    (key other : Bytes) (items : List Region)
    → bytes_compare key other ≡ Ordering.lt
    → AllAbove other items
    → AllAbove key items
AllAbove-trans key other [] h a = tt
AllAbove-trans key other (x ∷ items) h a =
    (bytes_compare_trans key other x.start_key h a.0, AllAbove-trans key other items h a.1)

put_region-IsSorted :
    (r : Region) (items : List Region) → IsSorted items → IsSorted (put_region r items)
put_region-IsSorted r [] s = (tt, tt)
put_region-IsSorted r (x ∷ items) s =
    elim (ordering_cases (bytes_compare x.start_key r.start_key)) [
      | inl lt ↦
          rw (lt, put_region)
            (AllAbove-put x.start_key r items lt s.0, put_region-IsSorted r items s.1)
      | inr (inl eq) ↦
          rw (eq, put_region) (rw (← bytes_compare_eq x.start_key r.start_key eq) (s.0), s.1)
      | inr (inr gt) ↦
          let first = bytes_compare_gt x.start_key r.start_key gt in
          rw (gt, put_region) ((first, AllAbove-trans r.start_key x.start_key items first s.0), s)
    ]

AllAbove-drop :
    (key other : Bytes) (items : List Region)
    → AllAbove key items
    → AllAbove key (drop_region other items)
AllAbove-drop key other [] a = tt
AllAbove-drop key other (x ∷ items) a = elim (Bool-cases (bytes_eq x.start_key other)) [
  | inl same ↦ rw same (AllAbove-drop key other items a.1)
  | inr differ ↦ rw differ (a.0, AllAbove-drop key other items a.1)
]

drop_region-IsSorted :
    (key : Bytes) (items : List Region) → IsSorted items → IsSorted (drop_region key items)
drop_region-IsSorted key [] s = tt
drop_region-IsSorted key (x ∷ items) s = elim (Bool-cases (bytes_eq x.start_key key)) [
  | inl same ↦ rw same (drop_region-IsSorted key items s.1)
  | inr differ ↦
      rw differ (AllAbove-drop x.start_key key items s.0, drop_region-IsSorted key items s.1)
]

abbrev SortedList : Type 0
SortedList = (items : List Region) × IsSorted items

abbrev list_tree : BTree
list_tree = record {
  Tree = SortedList;
  ascend_greater_or_equal = λ t key. from_key key t.0;
  descend_less_or_equal = λ t key. down_from key t.0 [];
  replace_or_insert = λ t r. (put_region r t.0, put_region-IsSorted r t.0 t.1);
  delete = λ t key. (drop_region key t.0, drop_region-IsSorted key t.0 t.1);
  items = λ t. t.0;
  items-IsSorted = λ t. t.1;
  ascend-items = λ t key. refl;
  descend-items = λ t key. refl;
  replace_or_insert-items = λ t r. refl;
  delete-items = λ t key. refl;
}

abbrev region_of : ℕ → ℕ → Bytes → Bytes → Region
region_of id ver start_key end_key = record {
  ver_id = record { id = id; conf_ver = 1; ver = ver };
  start_key = start_key;
  end_key = end_key;
}

-- A region in the cache, and a newer one that begins in its range.
abbrev old_region : Region
old_region = region_of 1 1 (2 ∷ []) (6 ∷ [])

abbrev new_region : Region
new_region = region_of 2 2 (4 ∷ []) (8 ∷ [])

abbrev one_cached : RegionIndexMu list_tree
one_cached = record {
  regions = λ v. some old_region;
  latest_versions = λ id. if id == 1 then some old_region.ver_id else none;
  sorted = (old_region ∷ [], (tt, tt));
}
