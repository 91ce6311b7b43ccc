-- ===== src/UnionStore/Merge.antt =====
-- The list that a union iterator goes through, as a relation on the lists of its two iterators.
use client_go.Base.{
  ◌≡◌, Bool, true, false, if◌then◌else◌, List, [], ◌∷◌, Bytes, bytes_eq, Ordering, All,
}
use client_go.UnionStore.{KeyValue, compare_in, is_nil, Found, value_of, not_exist}

module _ (reverse : Bool) where
  abbrev pub First : Bytes → Bytes → Type 0
  First x y = compare_in reverse x y ≡ Ordering.lt

  abbrev pub AllLater : Bytes → List KeyValue → Type 0
  AllLater x = All (λ (e : KeyValue). First x e.key)

  -- Strictly ascending, or descending for a reversed iterator.
  abbrev pub IsSorted : List KeyValue → Type 0
  IsSorted [] = Unit {0}
  IsSorted (e ∷ es) = AllLater e.key es × IsSorted es

  -- The entries of the union of the first two lists.
  pub data Merges : List KeyValue → List KeyValue → List KeyValue → Type 0 where
    at_end : Merges [] [] []
    skip :
        (d : KeyValue) (ds ss es : List KeyValue)
        → is_nil d.value ≡ true
        → AllLater d.key ss
        → Merges ds ss es
        → Merges (d ∷ ds) ss es
    take_dirty :
        (d : KeyValue) (ds ss es : List KeyValue)
        → is_nil d.value ≡ false
        → AllLater d.key ss
        → Merges ds ss es
        → Merges (d ∷ ds) ss (d ∷ es)
    take_snapshot :
        (s : KeyValue) (ds ss es : List KeyValue)
        → AllLater s.key ds
        → Merges ds ss es
        → Merges ds (s ∷ ss) (s ∷ es)
    skip_both :
        (d s : KeyValue) (ds ss es : List KeyValue)
        → d.key ≡ s.key
        → is_nil d.value ≡ true
        → Merges ds ss es
        → Merges (d ∷ ds) (s ∷ ss) es
    take_over :
        (d s : KeyValue) (ds ss es : List KeyValue)
        → d.key ≡ s.key
        → is_nil d.value ≡ false
        → Merges ds ss es
        → Merges (d ∷ ds) (s ∷ ss) (d ∷ es)

  pub Merges-All :
      (P : KeyValue → Type 0) (ds ss es : List KeyValue)
      → Merges ds ss es
      → All P ds
      → All P ss
      → All P es
  Merges-All P _ _ _ at_end hd hs = tt
  Merges-All P _ _ _ (skip d ds ss es gone later m) hd hs = Merges-All P ds ss es m hd.1 hs
  Merges-All P _ _ _ (take_dirty d ds ss es here later m) hd hs =
      (hd.0, Merges-All P ds ss es m hd.1 hs)
  Merges-All P _ _ _ (take_snapshot s ds ss es later m) hd hs =
      (hs.0, Merges-All P ds ss es m hd hs.1)
  Merges-All P _ _ _ (skip_both d s ds ss es same gone m) hd hs = Merges-All P ds ss es m hd.1 hs.1
  Merges-All P _ _ _ (take_over d s ds ss es same here m) hd hs =
      (hd.0, Merges-All P ds ss es m hd.1 hs.1)

  pub Merges-IsSorted :
      (ds ss es : List KeyValue) → Merges ds ss es → IsSorted ds → IsSorted ss → IsSorted es
  Merges-IsSorted _ _ _ at_end hd hs = tt
  Merges-IsSorted _ _ _ (skip d ds ss es gone later m) hd hs = Merges-IsSorted ds ss es m hd.1 hs
  Merges-IsSorted _ _ _ (take_dirty d ds ss es here later m) hd hs = (
    Merges-All (λ e. First d.key e.key) ds ss es m hd.0 later,
    Merges-IsSorted ds ss es m hd.1 hs,
  )
  Merges-IsSorted _ _ _ (take_snapshot s ds ss es later m) hd hs = (
    Merges-All (λ e. First s.key e.key) ds ss es m later hs.0,
    Merges-IsSorted ds ss es m hd hs.1,
  )
  Merges-IsSorted _ _ _ (skip_both d s ds ss es same gone m) hd hs =
      Merges-IsSorted ds ss es m hd.1 hs.1
  Merges-IsSorted _ _ _ (take_over d s ds ss es same here m) hd hs = (
    Merges-All (λ e. First d.key e.key) ds ss es m hd.0 (rw same hs.0),
    Merges-IsSorted ds ss es m hd.1 hs.1,
  )

-- What a list of entries has at a key.
unfoldable pub lookup : List KeyValue → Bytes → Found
lookup [] k = not_exist
lookup (e ∷ es) k = let later = lookup es k in if bytes_eq e.key k then value_of e.value else later
