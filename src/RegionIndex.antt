-- ===== src/RegionIndex.antt =====
-- internal/locate: the index of cached regions, `SortedRegions` of sorted_btree.go and
-- `regionIndexMu` of region_cache.go. github.com/google/btree is the parameter `BTree`.
pub mod Tree
pub mod Inserted
use client_go.Base.{
  ℕ, ◌≡◌, Bool, true, false, not, if◌then◌else◌, ltb, ◌==◌, ◌&&◌, ◌||◌, Option, none, some, List,
  [], ◌∷◌, Bytes, bytes_compare, bytes_eq, Ordering,
}
use client_go.KvRpc.{RegionVerId}

-- What the index uses of a `Region`.
pub record Region : Type 0 where
  pub ver_id : RegionVerId
  pub start_key : Bytes
  pub end_key : Bytes

abbrev pub is_unbounded : Bytes → Bool
is_unbounded [] = true
is_unbounded (b ∷ bs) = false

abbrev pub less : Bytes → Bytes → Bool
less x y = elim (bytes_compare x y) [ Ordering.lt ↦ true | _ ↦ false ]

abbrev pub less_or_equal : Bytes → Bytes → Bool
less_or_equal x y = elim (bytes_compare x y) [ Ordering.gt ↦ false | _ ↦ true ]

-- `contains` of a region.
abbrev pub contains_key : Region → Bytes → Bool
contains_key r key = less_or_equal r.start_key key && (less key r.end_key || is_unbounded r.end_key)

abbrev pub contains_by_end : Region → Bytes → Bool
contains_by_end r [] = is_unbounded r.end_key
contains_by_end r (b ∷ key) =
    less r.start_key (b ∷ key) && (less_or_equal (b ∷ key) r.end_key || is_unbounded r.end_key)

-- The iteration of `SearchByKey`, over the items in descending order.
unfoldable pub search_in : Bytes → Bool → List Region → Option Region
search_in key is_end_key [] = none
search_in key is_end_key (r ∷ items) =
    let later = search_in key is_end_key items in
    if is_end_key && bytes_eq r.start_key key
    then later
    else if not is_end_key && contains_key r key || is_end_key && contains_by_end r key
    then some r
    else none

-- The iteration of `removeIntersecting`, over the items in ascending order: the items to delete, or
-- `none` where a newer region is found.
unfoldable pub intersecting : Region → ℕ → List Region → Option (List Region)
intersecting r ver [] = some []
intersecting r ver (item ∷ items) =
    let later = intersecting r ver items in
    if not (is_unbounded r.end_key) && not (less item.start_key r.end_key)
    then some []
    else if ltb ver item.ver_id.ver
    then none
    else elim later [ none ↦ none | some deleted ↦ some (item ∷ deleted) ]

-- The items in ascending order from a key on, and in descending order from a key down.
abbrev pub from_key : Bytes → List Region → List Region
from_key key [] = []
from_key key (r ∷ items) =
    let later = from_key key items in if less r.start_key key then later else r ∷ items

abbrev pub down_from : Bytes → List Region → List Region → List Region
down_from key [] above = above
down_from key (r ∷ items) above =
    if less_or_equal r.start_key key then down_from key items (r ∷ above) else above

abbrev pub put_region : Region → List Region → List Region
put_region r [] = r ∷ []
put_region r (item ∷ items) =
    let later = put_region r items in
    elim (bytes_compare item.start_key r.start_key) [
      | Ordering.lt ↦ item ∷ later
      | Ordering.eq ↦ r ∷ items
      | Ordering.gt ↦ r ∷ (item ∷ items)
    ]

abbrev pub drop_region : Bytes → List Region → List Region
drop_region key [] = []
drop_region key (r ∷ items) =
    let later = drop_region key items in if bytes_eq r.start_key key then later else r ∷ later

-- The items of a list of regions are strictly ascending by their start keys.
abbrev pub AllAbove : Bytes → List Region → Type 0
AllAbove key [] = Unit {0}
AllAbove key (r ∷ items) = (bytes_compare key r.start_key ≡ Ordering.lt) × AllAbove key items

abbrev pub IsSorted : List Region → Type 0
IsSorted [] = Unit {0}
IsSorted (r ∷ items) = AllAbove r.start_key items × IsSorted items

-- `btree.BTreeG` with start keys compared: what its iterations pass on, and what its updates do to the
-- items, as the package documents it.
pub record BTree : Type 1 where
  pub Tree : Type 0
  pub ascend_greater_or_equal : Tree → Bytes → List Region
  pub descend_less_or_equal : Tree → Bytes → List Region
  pub replace_or_insert : Tree → Region → Tree
  pub delete : Tree → Bytes → Tree
  pub items : Tree → List Region
  pub items-IsSorted : (t : Tree) → IsSorted (items t)
  pub ascend-items :
      (t : Tree) (key : Bytes) → ascend_greater_or_equal t key ≡ from_key key (items t)
  pub descend-items :
      (t : Tree) (key : Bytes) → descend_less_or_equal t key ≡ down_from key (items t) []
  pub replace_or_insert-items :
      (t : Tree) (r : Region) → items (replace_or_insert t r) ≡ put_region r (items t)
  pub delete-items : (t : Tree) (key : Bytes) → items (delete t key) ≡ drop_region key (items t)

-- `RegionVerID.Equals`
abbrev pub equals : RegionVerId → RegionVerId → Bool
equals v w = v.id == w.id && v.conf_ver == w.conf_ver && v.ver == w.ver

module _ (B : BTree) where
  open B use {Tree, ascend_greater_or_equal, descend_less_or_equal, replace_or_insert, delete}

  unfoldable pub search_by_key : Tree → Bytes → Bool → Option Region
  unfolding search_in
  search_by_key t key is_end_key = search_in key is_end_key (descend_less_or_equal t key)

  unfoldable pub delete_all : Tree → List Region → Tree
  delete_all t [] = t
  delete_all t (r ∷ deleted) = delete_all (delete t r.start_key) deleted

  pub record RegionIndexMu : Type 0 where
    pub regions : RegionVerId → Option Region
    pub latest_versions : ℕ → Option RegionVerId
    pub sorted : Tree

  abbrev pub unless_latest : Option RegionVerId → RegionVerId → Option RegionVerId
  unless_latest none old_ver = none
  unless_latest (some ver) old_ver = if equals ver old_ver then none else some ver

  unfoldable pub remove_version_from_cache : RegionIndexMu → RegionVerId → ℕ → RegionIndexMu
  remove_version_from_cache mu old_ver region_id = record mu {
    regions = λ v. if equals v old_ver then none else mu.regions v;
    latest_versions = λ id.
        if id == region_id
        then unless_latest (mu.latest_versions region_id) old_ver
        else mu.latest_versions id;
  }

  unfoldable pub remove_versions : RegionIndexMu → List Region → RegionIndexMu
  unfolding remove_version_from_cache
  remove_versions mu [] = mu
  remove_versions mu (r ∷ deleted) =
      remove_versions (remove_version_from_cache mu r.ver_id r.ver_id.id) deleted

  -- The region is older than the version of it that is known.
  abbrev pub is_older : Option RegionVerId → RegionVerId → Bool
  is_older none new_ver = false
  is_older (some old_ver) new_ver =
      ltb new_ver.ver old_ver.ver || ltb new_ver.conf_ver old_ver.conf_ver

  -- The end of `insertRegionToCache`, with the regions that `removeIntersecting` finds. What the store
  -- of the new region takes over from the first of them, and that they become invalid, is left out.
  unfoldable pub replace_regions :
      RegionIndexMu → Region → Option (List Region) → RegionIndexMu × Bool
  unfolding delete_all remove_versions
  replace_regions mu r none = (mu, false)
  replace_regions mu r (some deleted) =
      let mu' : RegionIndexMu = remove_versions mu deleted in
      (
        record {
          regions = λ v. if equals v r.ver_id then some r else mu'.regions v;
          latest_versions =
              λ id. if id == r.ver_id.id then some r.ver_id else mu'.latest_versions id;
          sorted = replace_or_insert (delete_all mu.sorted deleted) r;
        },
        true,
      )

  unfoldable pub insert_region_to_cache : RegionIndexMu → Region → RegionIndexMu × Bool
  unfolding replace_regions intersecting
  insert_region_to_cache mu r =
      if is_older (mu.latest_versions r.ver_id.id) r.ver_id
      then (mu, false)
      else replace_regions mu r
          (intersecting r r.ver_id.ver (ascend_greater_or_equal mu.sorted r.start_key))
