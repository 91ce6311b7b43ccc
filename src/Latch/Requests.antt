-- ===== src/Latch/Requests.antt =====
-- The requests of one lock: each with the slot of its key, the keys in strictly ascending order.
use client_go.Base.{
  ordering_cases, ℕ, ◌≡◌, ◌≢◌, refl, ◌∙◌, sym, ◌⊎◌, inl, inr, List, [], ◌∷◌, Bytes, bytes_eq,
  bytes_eq→eq, bytes_eq_refl, bytes_compare, bytes_compare_refl, bytes_compare_eq, bytes_compare_gt,
  bytes_compare_trans, Bool-cases, Ordering, All,
}
use client_go.Latch.{Request}
use client_go.Latch.Table.{slot_of, gen_slot_ids, insert_key, sort_keys, gen_lock}

abbrev pub HasKey : List Request → Bytes → Type 0
HasKey [] key = ⊥
HasKey (r ∷ rs) key = (r.key ≡ key) ⊎ HasKey rs key

abbrev pub Before : Bytes → Bytes → Type 0
Before k k' = bytes_compare k k' ≡ Ordering.lt

abbrev pub AllAfter : Bytes → List Request → Type 0
AllAfter key = All (λ (r : Request). Before key r.key)

abbrev pub AllBefore : Bytes → List Request → Type 0
AllBefore key = All (λ (r : Request). Before r.key key)

abbrev pub Ascending : List Request → Type 0
Ascending [] = Unit {0}
Ascending (r ∷ rs) = AllAfter r.key rs × Ascending rs

-- The keys that a lock has acquired, the last one first, and those that it still wants.
abbrev pub Descending : List Request → Type 0
Descending [] = Unit {0}
Descending (r ∷ rs) = AllBefore r.key rs × Descending rs

abbrev pub Apart : List Request → List Request → Type 0
Apart acquired wanted = All (λ (a : Request). AllAfter a.key wanted) acquired

pub record InOrder (acquired wanted : List Request) : Type 0 where
  pub below : Descending acquired
  pub above : Ascending wanted
  pub between : Apart acquired wanted

first_after :
    (acquired : List Request) (r : Request) (rest : List Request)
    → Apart acquired (r ∷ rest)
    → AllBefore r.key acquired × Apart acquired rest
first_after [] r rest h = (tt, tt)
first_after (a ∷ acquired) r rest h =
    let (before, apart) = first_after acquired r rest h.1 in ((h.0.0, before), (h.0.1, apart))

pub InOrder-acquire :
    (acquired : List Request) (r : Request) (rest : List Request)
    → InOrder acquired (r ∷ rest)
    → InOrder (r ∷ acquired) rest
InOrder-acquire acquired r rest o =
    let (before, apart) = first_after acquired r rest o.between in
    record { below = (before, o.below); above = o.above.1; between = (o.above.0, apart) }

add_first :
    (acquired : List Request) (r : Request) (wanted : List Request)
    → AllBefore r.key acquired
    → Apart acquired wanted
    → Apart acquired (r ∷ wanted)
add_first [] r wanted h k = tt
add_first (a ∷ acquired) r wanted h k = ((h.0, k.0), add_first acquired r wanted h.1 k.1)

pub InOrder-release :
    (r : Request) (rest wanted : List Request)
    → InOrder (r ∷ rest) wanted
    → InOrder rest (r ∷ wanted)
InOrder-release r rest wanted o = record {
  below = o.below.1;
  above = (o.between.0, o.above);
  between = add_first rest r wanted o.below.0 o.between.1;
}

pub not-Before_self : (key : Bytes) → ¬ Before key key
not-Before_self key h = cc (h, bytes_compare_refl key)

-- The key that was acquired last is not among the others.
pub last_is_new :
    (key k : Bytes) (rest : List Request) → AllBefore key rest → HasKey rest k → key ≢ k
last_is_new key k [] h m same = elim m [ ]
last_is_new key k (r ∷ rest) h (inl e) same = not-Before_self key (rw (e ∙ sym same) at h.0)
last_is_new key k (r ∷ rest) h (inr later) same = last_is_new key k rest h.1 later same

-- What is acquired comes before what is wanted.
pub acquired-Before :
    (acquired : List Request) (k : Bytes) (r : Request) (rest : List Request)
    → Apart acquired (r ∷ rest)
    → HasKey acquired k
    → Before k r.key
acquired-Before [] k r rest h m = elim m [ ]
acquired-Before (a ∷ acquired) k r rest h (inl e) = rw (← e) (h.0.0)
acquired-Before (a ∷ acquired) k r rest h (inr later) = acquired-Before acquired k r rest h.1 later

pub bytes_dec : (xs ys : Bytes) → (xs ≡ ys) ⊎ (xs ≢ ys)
bytes_dec xs ys = elim (Bool-cases (bytes_eq xs ys)) [
  | inl same ↦ inl (bytes_eq→eq xs ys same)
  | inr differ ↦ inr (λ e. cc (differ, e, bytes_eq_refl xs))
]

compare_cases :
    (x y : Bytes)
    → (bytes_compare x y ≡ Ordering.lt)
      ⊎ (bytes_compare x y ≡ Ordering.eq)
      ⊎ (bytes_compare x y ≡ Ordering.gt)
compare_cases x y = ordering_cases (bytes_compare x y)

-- Keys as `genLock` gets and sorts them.
abbrev pub NoRepeat : List Bytes → Type 0
NoRepeat [] = Unit {0}
NoRepeat (k ∷ keys) = All (λ (x : Bytes). k ≢ x) keys × NoRepeat keys

abbrev SortedKeys : List Bytes → Type 0
SortedKeys [] = Unit {0}
SortedKeys (k ∷ keys) = All (Before k) keys × SortedKeys keys

insert_key-All :
    (P : Bytes → Type 0) (k : Bytes) (keys : List Bytes)
    → P k
    → All P keys
    → All P (insert_key k keys)
unfolding insert_key
insert_key-All P k [] p h = (p, tt)
insert_key-All P k (x ∷ keys) p h = elim (compare_cases x k) [
  | inl lt ↦ rw (lt, All) (h.0, insert_key-All P k keys p h.1)
  | inr (inl eq) ↦ rw (eq, All) (p, h)
  | inr (inr gt) ↦ rw (gt, All) (p, h)
]

sort_keys-All : (P : Bytes → Type 0) (keys : List Bytes) → All P keys → All P (sort_keys keys)
unfolding sort_keys
sort_keys-All P [] h = tt
sort_keys-All P (k ∷ keys) h = insert_key-All P k (sort_keys keys) h.0 (sort_keys-All P keys h.1)

All-Before :
    (k x : Bytes) (keys : List Bytes) → Before k x → All (Before x) keys → All (Before k) keys
All-Before k x [] h a = tt
All-Before k x (y ∷ keys) h a = (bytes_compare_trans k x y h a.0, All-Before k x keys h a.1)

insert_key-SortedKeys :
    (k : Bytes) (keys : List Bytes)
    → All (λ (x : Bytes). k ≢ x) keys
    → SortedKeys keys
    → SortedKeys (insert_key k keys)
unfolding insert_key
insert_key-SortedKeys k [] n s = (tt, tt)
insert_key-SortedKeys k (x ∷ keys) n s = elim (compare_cases x k) [
  | inl lt ↦
      rw (lt, SortedKeys)
        (insert_key-All (Before x) k keys lt s.0, insert_key-SortedKeys k keys n.1 s.1)
  | inr (inl eq) ↦ absurd (n.0 (sym (bytes_compare_eq x k eq)))
  | inr (inr gt) ↦
      let first : Before k x = bytes_compare_gt x k gt in
      rw (gt, SortedKeys) ((first, All-Before k x keys first s.0), s)
]

sort_keys-SortedKeys : (keys : List Bytes) → NoRepeat keys → SortedKeys (sort_keys keys)
unfolding sort_keys
sort_keys-SortedKeys [] n = tt
sort_keys-SortedKeys (k ∷ keys) n =
    insert_key-SortedKeys k (sort_keys keys) (sort_keys-All (λ (x : Bytes). k ≢ x) keys n.0)
      (sort_keys-SortedKeys keys n.1)

module _ (sum_32 : Bytes → ℕ) (size : ℕ) where
  -- Each request has the slot of its key.
  abbrev pub Routed : List Request → Type 0
  Routed = All (λ (r : Request). r.slot_id ≡ slot_of sum_32 size r.key)

  gen_slot_ids-AllAfter :
      (k : Bytes) (keys : List Bytes)
      → All (Before k) keys
      → AllAfter k (gen_slot_ids sum_32 size keys)
  unfolding gen_slot_ids
  gen_slot_ids-AllAfter k [] h = tt
  gen_slot_ids-AllAfter k (x ∷ keys) h = (h.0, gen_slot_ids-AllAfter k keys h.1)

  gen_slot_ids-Ascending :
      (keys : List Bytes)
      → SortedKeys keys
      → Ascending (gen_slot_ids sum_32 size keys) × Routed (gen_slot_ids sum_32 size keys)
  unfolding gen_slot_ids
  gen_slot_ids-Ascending [] s = (tt, tt)
  gen_slot_ids-Ascending (k ∷ keys) s =
      let (ascending, routed) = gen_slot_ids-Ascending keys s.1 in
      ((gen_slot_ids-AllAfter k keys s.0, ascending), (refl, routed))

  -- A lock as `genLock` makes it, of keys that do not repeat.
  pub gen_lock-InOrder :
      (start_ts : ℕ) (keys : List Bytes)
      → NoRepeat keys
      → InOrder [] (gen_lock sum_32 size start_ts keys).wanted
        × Routed (gen_lock sum_32 size start_ts keys).wanted
  unfolding gen_lock
  gen_lock-InOrder start_ts keys n =
      let (ascending, routed) =
        gen_slot_ids-Ascending (sort_keys keys) (sort_keys-SortedKeys keys n) in
      (record { below = tt; above = ascending; between = tt }, routed)
