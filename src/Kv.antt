-- ===== src/Kv.antt =====
-- kv/key.go: the keys that follow a key, or all keys with a prefix.
pub mod Flags
use client_go.Base.{
  ℕ, zero, suc, replicate, append_assoc, ◌+◌, ◌%◌, ◌<◌, ◌≡◌, ◌≢◌, refl, ◌⊎◌, inl, inr, Ordering,
  Bool, true, false, if◌then◌else◌, ◌==◌, ◌&&◌, [], ◌∷◌, ◌++◌, Bytes, IsBytes, bytes_compare,
  same_prefix, arith, Bool-cases,
}

-- A buffer one byte longer, zeroed, with the key copied into it.
unfoldable pub next_key : Bytes → Bytes
next_key k = k ++ (0 ∷ [])

-- `buf[i]++`, and on to the byte before if that is 0.
unfoldable pub carry : ℕ → Bytes × Bool → Bytes × Bool
carry b (k, true) = (((b + 1) % 256) ∷ k, (b + 1) % 256 == 0)
carry b (k, false) = (b ∷ k, false)

-- The loop from the last byte on: the buffer, and whether every byte overflowed (`i == -1`).
unfoldable pub increment : Bytes → Bytes × Bool
unfolding carry
increment [] = ([], true)
increment (b ∷ k) = carry b (increment k)

unfoldable pub prefix_next_key : Bytes → Bytes
unfolding increment
prefix_next_key k = if (increment k).1 then [] else (increment k).0

unfoldable pub cmp_key : Bytes → Bytes → Ordering
cmp_key k another = bytes_compare k another

next_key_above : (k : Bytes) → bytes_compare k (k ++ (0 ∷ [])) ≡ Ordering.lt
unfolding bytes_compare
next_key_above [] = refl
next_key_above (x ∷ k) = ground (arith, next_key_above k)

nothing_between :
    (k other : Bytes)
    → bytes_compare k other ≡ Ordering.lt
    → bytes_compare other (k ++ (0 ∷ [])) ≢ Ordering.lt
unfolding bytes_compare
nothing_between [] [] h e = cc
nothing_between [] (y ∷ []) h e = ground arith
nothing_between [] (y ∷ (z ∷ ys)) h e = ground arith
nothing_between (x ∷ k) [] h e = cc
nothing_between (x ∷ k) (y ∷ ys) h e = ground (arith, nothing_between k ys)

-- `next_key` is the immediate successor: it is above the key, and no key lies between.
next_key_least :
    (k other : Bytes)
    → (cmp_key k (next_key k) ≡ Ordering.lt)
      × (¬ ((cmp_key k other ≡ Ordering.lt) × (cmp_key other (next_key k) ≡ Ordering.lt)))
unfolding cmp_key next_key
next_key_least k other = (next_key_above k, λ (above, below). nothing_between k other above below)

increment_above :
    (k s : Bytes)
    → IsBytes k
    → (increment k).1 ≡ false
    → bytes_compare (k ++ s) (increment k).0 ≡ Ordering.lt
unfolding increment bytes_compare
increment_above [] s w h = cc
increment_above (b ∷ k) s w h = elim (Bool-cases (increment k).1) [
  | inl over ↦ ground arith
  | inr stays ↦ ground (arith, increment_above k s w.1)
]

abbrev pub all_max : Bytes → Bool
all_max [] = true
all_max (b ∷ k) = b == 0xff && all_max k

increment_overflow : (k : Bytes) → IsBytes k → (increment k).1 ≡ all_max k
unfolding increment
increment_overflow [] w = refl
increment_overflow (b ∷ k) w = ground (arith, increment_overflow k w.1)

-- Every key with the prefix `k` is below `prefix_next_key k`, unless all bytes of `k` are 0xff: then
-- the result is empty, and a result is empty only then.
pub prefix_next_key_above :
    (k s : Bytes)
    → IsBytes k
    → ((all_max k ≡ false) × (cmp_key (k ++ s) (prefix_next_key k) ≡ Ordering.lt))
      ⊎ ((all_max k ≡ true) × (prefix_next_key k ≡ []))
unfolding cmp_key prefix_next_key
prefix_next_key_above k s w = elim (Bool-cases (increment k).1) [
  | inl over ↦ inr (ground (arith, increment_overflow k w), rw over)
  | inr stays ↦ inl (ground (arith, increment_overflow k w), rw stays (increment_above k s w stays))
]

increment-max : (n : ℕ) → (increment (replicate n 0xff) ≡ (replicate n 0, true))
unfolding increment
increment-max zero = refl
increment-max (suc n) = ground (arith, increment-max n)

increment_tail :
    (p : Bytes) (b n : ℕ)
    → b < 255
    → increment (p ++ (b ∷ replicate n 0xff)) ≡ (p ++ ((b + 1) ∷ replicate n 0), false)
unfolding increment
increment_tail [] b n h = ground (arith, increment-max n)
increment_tail (x ∷ p) b n h = ground (arith, increment_tail p b n)

one_byte_below : (c n : ℕ) → bytes_compare (c ∷ []) (c ∷ replicate (suc n) 0) ≡ Ordering.lt
unfolding bytes_compare
one_byte_below c n = ground arith

lower_byte : (b : ℕ) (s : Bytes) → bytes_compare (b ∷ s) ((b + 1) ∷ []) ≡ Ordering.lt
unfolding bytes_compare
lower_byte b s = ground arith

-- For a key that ends in bytes 0xff behind a smaller byte `b`, `prefix_next_key` is not the least
-- bound of the keys with that prefix: the shorter key that ends in `b + 1` is above all of them, and
-- below the result.
pub prefix_next_key_skips :
    (p s : Bytes) (b n : ℕ)
    → b < 255
    → (cmp_key ((p ++ (b ∷ replicate (suc n) 0xff)) ++ s) (p ++ ((b + 1) ∷ [])) ≡ Ordering.lt)
      × (cmp_key (p ++ ((b + 1) ∷ [])) (prefix_next_key (p ++ (b ∷ replicate (suc n) 0xff)))
          ≡ Ordering.lt)
unfolding cmp_key prefix_next_key
prefix_next_key_skips p s b n h = (
  rw (append_assoc p, same_prefix p) (lower_byte b _),
  rw (increment_tail p b (suc n) h) (rw (same_prefix p) (one_byte_below (b + 1) n)),
)
