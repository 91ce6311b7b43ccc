-- ===== src/KvRpc/Batches.antt =====
-- What the batches of internal/kvrpc/batch.go hold, and how large they are.
use client_go.Base.{
  ℕ, ◌+◌, ◌≤◌, ◌≡◌, refl, sym, ◌∙◌, inl, inr, ltb, Bool-cases, List, [], ◌∷◌, ◌++◌, append_assoc,
  append-nil, Bytes, length, All, arith, length-append,
}
use client_go.KvRpc.{RegionVerId, Batch, key_batch_loop, append_key_batches, close_keys}

-- The keys of the batches, one after the other.
abbrev pub all_keys : List Batch → List Bytes
all_keys [] = []
all_keys (b ∷ batches) = b.keys ++ all_keys batches

pub all_keys-append : (xs ys : List Batch) → all_keys (xs ++ ys) ≡ all_keys xs ++ all_keys ys
all_keys-append [] ys = refl
all_keys-append (b ∷ xs) ys =
    rw (all_keys-append xs ys) (sym (append_assoc b.keys (all_keys xs) (all_keys ys)))

pub All-append {ℓ κ} :
    {A : Type ℓ} (P : A → Type κ) (xs ys : List A) → All P xs → All P ys → All P (xs ++ ys)
All-append P [] ys h k = k
All-append P (x ∷ xs) ys h k = (h.0, All-append P xs ys h.1 k)

module _ (region : RegionVerId) (limit : ℕ) where
  -- `full` batches of `limit + 1` keys each, and at most one that holds the rest.
  abbrev pub CutAt : List Batch → Type 0
  CutAt batches =
      (full : List Batch) × (rest : List Batch) × (batches ≡ full ++ rest)
      × All (λ (b : Batch). length b.keys ≡ limit + 1) full
      × (length rest ≤ 1)
      × All (λ (b : Batch). (1 ≤ length b.keys) × (length b.keys ≤ limit + 1)) rest

  key_batch_loop-keys :
      (batches : List Batch) (keys : List Bytes) (count : ℕ) (group_keys : List Bytes)
      → all_keys (key_batch_loop region limit batches keys count group_keys)
        ≡ all_keys batches ++ (keys ++ group_keys)
  unfolding key_batch_loop
  key_batch_loop-keys batches [] count [] = sym (append-nil (all_keys batches))
  key_batch_loop-keys batches (k ∷ ks) count [] = all_keys-append batches _
  key_batch_loop-keys batches keys count (key ∷ group_keys) = elim (Bool-cases (ltb limit count)) [
    | inl cut ↦ rw cut (
        key_batch_loop-keys (batches ++ (close_keys region limit keys ∷ [])) (key ∷ []) 1 group_keys
        ∙ rw (all_keys-append batches) (simp (append_assoc, append-nil)))
    | inr go ↦ rw go (
        key_batch_loop-keys batches (keys ++ (key ∷ [])) (count + 1) group_keys ∙ simp append_assoc)
  ]

  key_batch_loop-CutAt :
      (batches : List Batch) (keys : List Bytes) (count : ℕ) (group_keys : List Bytes)
      → All (λ (b : Batch). length b.keys ≡ limit + 1) batches
      → count ≡ length keys
      → length keys ≤ limit + 1
      → CutAt (key_batch_loop region limit batches keys count group_keys)
  unfolding key_batch_loop
  key_batch_loop-CutAt batches [] count [] h c n =
      (batches, [], sym (append-nil batches), h, omega arith, tt)
  key_batch_loop-CutAt batches (k ∷ ks) count [] h c n =
      (batches, _, refl, h, omega arith, ((omega arith, n), tt))
  key_batch_loop-CutAt batches keys count (key ∷ group_keys) h c n =
      elim (Bool-cases (ltb limit count)) [
        | inl cut ↦ rw cut (
            key_batch_loop-CutAt (batches ++ (close_keys region limit keys ∷ [])) (key ∷ []) 1
              group_keys
              (All-append (λ (b : Batch). length b.keys ≡ limit + 1) batches _ h (ground arith, tt))
              refl (omega arith))
        | inr go ↦ rw go (
            key_batch_loop-CutAt batches (keys ++ (key ∷ [])) (count + 1) group_keys h
              (omega (arith, length-append keys (key ∷ [])))
              (ground (arith, length-append keys (key ∷ []))))
      ]

  -- `append_key_batches` keeps all keys of the group in their order, and cuts them into batches of
  -- `limit + 1` keys each; a last batch, which is not empty, may have fewer.
  pub append_key_batches_cut :
      (group_keys : List Bytes)
      → (all_keys (append_key_batches region limit [] group_keys) ≡ group_keys)
        × CutAt (append_key_batches region limit [] group_keys)
  unfolding append_key_batches
  append_key_batches_cut group_keys = (
    key_batch_loop-keys [] [] 0 group_keys,
    key_batch_loop-CutAt [] [] 0 group_keys tt refl (omega arith),
  )
