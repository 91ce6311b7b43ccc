-- ===== src/KvRpc/Sizes.antt =====
-- `AppendBatches` of internal/kvrpc/batch.go: batches cut by the bytes that they hold.
use client_go.Base.{
  ℕ, ◌+◌, ◌≤◌, ◌<◌, ◌≡◌, refl, ap, sym, ◌∙◌, ◌⊎◌, inl, inr, leb, Bool-cases, List, [], ◌∷◌, ◌++◌,
  map, append_assoc, append-nil, Bytes, length, All, arith,
}
use mathlib.Core.List.{map-append}
use client_go.KvRpc.{
  RegionVerId, Batch, Open, fresh, close, close_last, add_key, batch_loop, append_batches,
}
use client_go.KvRpc.Batches.{all_keys, all_keys-append, All-append}

module _ (region : RegionVerId) (key_to_value : Bytes → Bytes) (key_to_ttl : Bytes → ℕ)
    (limit : ℕ) where
  -- The bytes of keys and values.
  abbrev pub payload : List Bytes → ℕ
  payload [] = 0
  payload (k ∷ ks) = length k + length (key_to_value k) + payload ks

  payload-snoc :
      (ks : List Bytes) (k : Bytes)
      → payload (ks ++ (k ∷ [])) ≡ payload ks + length k + length (key_to_value k)
  payload-snoc [] k = omega arith
  payload-snoc (j ∷ ks) k = omega (arith, payload-snoc ks k)

  -- Values and times to live belong to the keys, and the batch was below the limit before its last
  -- key came.
  pub record IsCut (b : Batch) : Type 0 where
    pub of_values : b.values ≡ map key_to_value b.keys
    pub of_ttls : b.ttls ≡ map key_to_ttl b.keys
    pub region_of : b.region_id ≡ region
    pub last_over :
        (front : List Bytes) × (last : Bytes) × (b.keys ≡ front ++ (last ∷ []))
        × (payload front < limit)

  -- What the loop keeps of the open batch.
  record Running (o : Open) : Type 0 where
    sized : o.size ≡ payload o.keys
    values_of : o.values ≡ map key_to_value o.keys
    ttls_of : o.ttls ≡ map key_to_ttl o.keys
    cut :
        (o.keys ≡ [])
        ⊎ ((front : List Bytes) × (last : Bytes) × (o.keys ≡ front ++ (last ∷ []))
            × (payload front < limit))

  add_key-Running :
      (o : Open) (key : Bytes)
      → Running o
      → o.size < limit
      → Running (add_key region key_to_value key_to_ttl limit o key)
  unfolding add_key
  add_key-Running o key r h = record {
    sized = omega (arith, r.sized, payload-snoc o.keys key);
    values_of =
        rw (map-append key_to_value o.keys (key ∷ []))
          (ap (λ (vs : List Bytes). vs ++ (key_to_value key ∷ [])) r.values_of);
    ttls_of =
        rw (map-append key_to_ttl o.keys (key ∷ []))
          (ap (λ (ts : List ℕ). ts ++ (key_to_ttl key ∷ [])) r.ttls_of);
    cut = inr (o.keys, key, refl, omega (arith, r.sized));
  }

  fresh-Running : Running fresh
  fresh-Running = record { sized = refl; values_of = refl; ttls_of = refl; cut = inl refl }

  close-IsCut :
      (o : Open)
      → 0 < limit
      → Running o
      → 0 < payload o.keys ⊎ (0 < length o.keys)
      → IsCut (close region o)
  close-IsCut o pos r h = record {
    of_values = r.values_of;
    of_ttls = r.ttls_of;
    region_of = refl;
    last_over = last r.cut;
  }
    where
      last :
          ((o.keys ≡ [])
            ⊎ ((front : List Bytes) × (last : Bytes) × (o.keys ≡ front ++ (last ∷ []))
                × (payload front < limit)))
          → (front : List Bytes) × (last : Bytes) × (o.keys ≡ front ++ (last ∷ []))
            × (payload front < limit)
      last (inr c) = c
      last (inl e) = absurd (go h)
        where
          go : 0 < payload o.keys ⊎ (0 < length o.keys) → ⊥
          go (inl x) = omega (arith, ap payload e)
          go (inr x) = omega (arith, ap (length {A = Bytes}) e)

  abbrev Heavy : Batch → Type 0
  Heavy b = limit ≤ payload b.keys

  -- Batches that reach the limit, and at most one more.
  abbrev pub HeavyButLast : List Batch → Type 0
  HeavyButLast batches =
      (full : List Batch) × (rest : List Batch) × (batches ≡ full ++ rest)
      × All Heavy full
      × (length rest ≤ 1)

  batch_loop-keys :
      (batches : List Batch) (o : Open) (group_keys : List Bytes)
      → all_keys (batch_loop region key_to_value key_to_ttl limit batches o group_keys)
        ≡ all_keys batches ++ (o.keys ++ group_keys)
  unfolding batch_loop add_key
  batch_loop-keys batches o [] = closed o.keys refl
    where
      closed :
          (ks : List Bytes)
          → o.keys ≡ ks
          → all_keys (close_last region batches o ks) ≡ all_keys batches ++ (ks ++ [])
      closed [] e = sym (append-nil (all_keys batches))
      closed (k ∷ ks) e = all_keys-append batches _ ∙ rw e
  batch_loop-keys batches o (key ∷ group_keys) = elim (Bool-cases (leb limit o.size)) [
    | inl cut ↦ rw cut (
        batch_loop-keys (batches ++ (close region o ∷ []))
          (add_key region key_to_value key_to_ttl limit fresh key) group_keys
        ∙ rw (all_keys-append batches) (simp (append_assoc, append-nil)))
    | inr go ↦ rw go (
        batch_loop-keys batches (add_key region key_to_value key_to_ttl limit o key) group_keys
        ∙ simp append_assoc)
  ]

  batch_loop-IsCut :
      (batches : List Batch) (o : Open) (group_keys : List Bytes)
      → 0 < limit
      → All IsCut batches
      → All Heavy batches
      → Running o
      → All IsCut (batch_loop region key_to_value key_to_ttl limit batches o group_keys)
        × HeavyButLast (batch_loop region key_to_value key_to_ttl limit batches o group_keys)
  unfolding batch_loop
  batch_loop-IsCut batches o [] pos h f r = closed o.keys refl
    where
      closed :
          (ks : List Bytes)
          → o.keys ≡ ks
          → All IsCut (close_last region batches o ks)
            × HeavyButLast (close_last region batches o ks)
      closed [] e = (h, (batches, [], sym (append-nil batches), f, omega arith))
      closed (k ∷ ks) e = (
        All-append IsCut batches _ h
            (close-IsCut o pos r (inr (omega (arith, ap (length {A = Bytes}) e))), tt),
        (batches, close region o ∷ [], refl, f, omega arith),
      )
  batch_loop-IsCut batches o (key ∷ group_keys) pos h f r = elim (Bool-cases (leb limit o.size)) [
    | inl cut ↦
        let heavy : limit ≤ payload o.keys = ground (arith, r.sized) in
        rw cut (
          batch_loop-IsCut (batches ++ (close region o ∷ []))
            (add_key region key_to_value key_to_ttl limit fresh key) group_keys pos
            (All-append IsCut batches _ h (close-IsCut o pos r (inl (omega arith)), tt))
            (All-append Heavy batches _ f (heavy, tt))
            (add_key-Running fresh key fresh-Running pos))
    | inr go ↦ rw go (
        batch_loop-IsCut batches (add_key region key_to_value key_to_ttl limit o key) group_keys pos
          h f (add_key-Running o key r (ground arith)))
  ]

  -- With a positive limit `append_batches` keeps all keys of the group in their order; each batch has
  -- the region, the values and times to live of its keys, and stayed below the limit, in bytes of
  -- keys and values, before its last key; and each batch but the last reaches the limit.
  pub append_batches-IsCut :
      (group_keys : List Bytes)
      → 0 < limit
      → (all_keys (append_batches region key_to_value key_to_ttl limit [] group_keys) ≡ group_keys)
        × All IsCut (append_batches region key_to_value key_to_ttl limit [] group_keys)
        × HeavyButLast (append_batches region key_to_value key_to_ttl limit [] group_keys)
  unfolding append_batches
  append_batches-IsCut group_keys pos =
      let (cuts, heavy) = batch_loop-IsCut [] fresh group_keys pos tt tt fresh-Running in
      (batch_loop-keys [] fresh group_keys, cuts, heavy)
