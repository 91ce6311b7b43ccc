-- ===== src/Codec/Number/BigEndian.antt =====
-- The bytes of a number, highest first: length, value and order.
use client_go.Base.{
  ℕ, zero, suc, ◌+◌, ◌-◌, ◌*◌, ◌/◌, ◌%◌, ◌^◌, ◌≤◌, ◌<◌, ◌≡◌, refl, ap, ◌∙◌, Ordering, ◌⊎◌, inl, inr,
  [], ◌∷◌, ◌++◌, Bytes, bytes_compare, length, length-append, append_assoc, arith,
}
use native.Mathlib.Nat.{pow-suc}
use client_go.Codec.Number.{big_endian, read_bytes}

pub length-big_endian : (n v : ℕ) → length (big_endian n v) ≡ n
unfolding big_endian
length-big_endian zero v = refl
length-big_endian (suc n) v =
    omega (
      arith,
      length-append (big_endian n (v / 256)) ((v % 256) ∷ []),
      length-big_endian n (v / 256),
    )

read_bytes-append :
    (acc : ℕ) (xs : Bytes) (c : ℕ)
    → read_bytes acc (xs ++ (c ∷ [])) ≡ (read_bytes acc xs * 256 + c) % 0x1_0000_0000_0000_0000
unfolding read_bytes
read_bytes-append acc [] c = refl
read_bytes-append acc (x ∷ xs) c =
    read_bytes-append ((acc * 256 + x) % 0x1_0000_0000_0000_0000) xs c

pow_256 : (n : ℕ) → 256 ^ suc n ≡ 256 * 256 ^ n
pow_256 n = grind (arith, pow-suc 256 n)

pub read_bytes-big_endian :
    (n v : ℕ) → v < 256 ^ n → v < 0x1_0000_0000_0000_0000 → read_bytes 0 (big_endian n v) ≡ v
unfolding big_endian
read_bytes-big_endian zero v h k = unfold read_bytes in omega arith
read_bytes-big_endian (suc n) v h k =
    read_bytes-append 0 (big_endian n (v / 256)) (v % 256)
    ∙ rw (read_bytes-big_endian n (v / 256) (omega (arith, pow_256 n)) (omega arith)) (omega arith)

compare-append_same : (xs p q : Bytes) → bytes_compare (xs ++ p) (xs ++ q) ≡ bytes_compare p q
unfolding bytes_compare
compare-append_same [] p q = refl
compare-append_same (x ∷ xs) p q = ground (arith, compare-append_same xs p q)

head_lt : (a b : ℕ) (r s : Bytes) → a < b → bytes_compare (a ∷ r) (b ∷ s) ≡ Ordering.lt
unfolding bytes_compare
head_lt a b r s h = ground arith

pub lt_or_eq : (a b : ℕ) → a ≤ b → (a < b) ⊎ (a ≡ b)
lt_or_eq a b h = omega arith

pub big_endian_ascending :
    (n v w : ℕ) (r s : Bytes)
    → v < w
    → w < 256 ^ n
    → bytes_compare (big_endian n v ++ r) (big_endian n w ++ s) ≡ Ordering.lt
unfolding big_endian
big_endian_ascending zero v w r s h k = absurd (omega arith)
big_endian_ascending (suc n) v w r s h k = elim (lt_or_eq (v / 256) (w / 256) (omega arith)) [
  | inl below ↦
      rw (append_assoc (big_endian n (v / 256)), append_assoc (big_endian n (w / 256)))
        (big_endian_ascending n (v / 256) (w / 256) (v % 256 ∷ r) (w % 256 ∷ s) below
          (omega (arith, pow_256 n)))
  | inr same ↦
      rw (append_assoc (big_endian n (v / 256)), append_assoc (big_endian n (w / 256)), same)
        (compare-append_same (big_endian n (w / 256)) (v % 256 ∷ r) (w % 256 ∷ s)
          ∙ head_lt (v % 256) (w % 256) r s (omega arith))
]

read_bytes_step :
    (n v : ℕ)
    → read_bytes (0x1_0000_0000_0000_0000 - 1) (big_endian (suc n) v)
      ≡ (read_bytes (0x1_0000_0000_0000_0000 - 1) (big_endian n (v / 256)) * 256 + v % 256)
        % 0x1_0000_0000_0000_0000
unfolding big_endian
read_bytes_step n v = read_bytes-append _ (big_endian n (v / 256)) (v % 256)

-- Read on top of a word with all bits set, low bytes give the sign-extended value.
pub read_bytes_negative :
    (n v : ℕ)
    → n ≤ 8
    → read_bytes (0x1_0000_0000_0000_0000 - 1) (big_endian n v)
      ≡ 0x1_0000_0000_0000_0000 - 256 ^ n + v % 256 ^ n
unfolding big_endian
read_bytes_negative zero v h = unfold read_bytes in omega arith
read_bytes_negative (suc zero) v h =
    read_bytes_step 0 v ∙ rw (read_bytes_negative zero (v / 256) (omega arith)) (omega arith)
read_bytes_negative (suc (suc zero)) v h =
    read_bytes_step 1 v ∙ rw (read_bytes_negative (suc zero) (v / 256) (omega arith)) (omega arith)
read_bytes_negative (suc (suc (suc zero))) v h =
    read_bytes_step 2 v
    ∙ rw (read_bytes_negative (suc (suc zero)) (v / 256) (omega arith)) (omega arith)
read_bytes_negative (suc (suc (suc (suc zero)))) v h =
    read_bytes_step 3 v
    ∙ rw (read_bytes_negative (suc (suc (suc zero))) (v / 256) (omega arith)) (omega arith)
read_bytes_negative (suc (suc (suc (suc (suc zero))))) v h =
    read_bytes_step 4 v
    ∙ rw (read_bytes_negative (suc (suc (suc (suc zero)))) (v / 256) (omega arith)) (omega arith)
read_bytes_negative (suc (suc (suc (suc (suc (suc zero)))))) v h =
    read_bytes_step 5 v
    ∙ rw (read_bytes_negative (suc (suc (suc (suc (suc zero))))) (v / 256) (omega arith))
        (omega arith)
read_bytes_negative (suc (suc (suc (suc (suc (suc (suc zero))))))) v h =
    read_bytes_step 6 v
    ∙ rw (read_bytes_negative (suc (suc (suc (suc (suc (suc zero)))))) (v / 256) (omega arith))
        (omega arith)
read_bytes_negative (suc (suc (suc (suc (suc (suc (suc (suc zero)))))))) v h =
    read_bytes_step 7 v
    ∙ rw
        (read_bytes_negative (suc (suc (suc (suc (suc (suc (suc zero))))))) (v / 256) (omega arith))
        (omega arith)
read_bytes_negative (suc (suc (suc (suc (suc (suc (suc (suc (suc n))))))))) v h =
    absurd (omega arith)

big_endian_step :
    (n v w : ℕ)
    → v % 256 ≡ w % 256
    → big_endian n (v / 256) ≡ big_endian n (w / 256)
    → big_endian (suc n) v ≡ big_endian (suc n) w
unfolding big_endian
big_endian_step n v w low e = rw (e, low)

-- Only the low bytes count.
pub big_endian_mod : (n v : ℕ) → n ≤ 8 → big_endian n v ≡ big_endian n (v % 256 ^ n)
unfolding big_endian
big_endian_mod zero v h = refl
big_endian_mod (suc zero) v h =
    big_endian_step zero v _ (omega arith) (big_endian_mod zero (v / 256) (omega arith))
big_endian_mod (suc (suc zero)) v h =
    big_endian_step (suc zero) v _ (omega arith)
      (big_endian_mod (suc zero) (v / 256) (omega arith) ∙ ap (big_endian (suc zero)) (omega arith))
big_endian_mod (suc (suc (suc zero))) v h = big_endian_step (suc (suc zero)) v _ (omega arith) (
    big_endian_mod (suc (suc zero)) (v / 256) (omega arith)
    ∙ ap (big_endian (suc (suc zero))) (omega arith))
big_endian_mod (suc (suc (suc (suc zero)))) v h =
    big_endian_step (suc (suc (suc zero))) v _ (omega arith) (
      big_endian_mod (suc (suc (suc zero))) (v / 256) (omega arith)
      ∙ ap (big_endian (suc (suc (suc zero)))) (omega arith))
big_endian_mod (suc (suc (suc (suc (suc zero))))) v h =
    big_endian_step (suc (suc (suc (suc zero)))) v _ (omega arith) (
      big_endian_mod (suc (suc (suc (suc zero)))) (v / 256) (omega arith)
      ∙ ap (big_endian (suc (suc (suc (suc zero))))) (omega arith))
big_endian_mod (suc (suc (suc (suc (suc (suc zero)))))) v h =
    big_endian_step (suc (suc (suc (suc (suc zero))))) v _ (omega arith) (
      big_endian_mod (suc (suc (suc (suc (suc zero))))) (v / 256) (omega arith)
      ∙ ap (big_endian (suc (suc (suc (suc (suc zero)))))) (omega arith))
big_endian_mod (suc (suc (suc (suc (suc (suc (suc zero))))))) v h =
    big_endian_step (suc (suc (suc (suc (suc (suc zero)))))) v _ (omega arith) (
      big_endian_mod (suc (suc (suc (suc (suc (suc zero)))))) (v / 256) (omega arith)
      ∙ ap (big_endian (suc (suc (suc (suc (suc (suc zero))))))) (omega arith))
big_endian_mod (suc (suc (suc (suc (suc (suc (suc (suc zero)))))))) v h =
    big_endian_step (suc (suc (suc (suc (suc (suc (suc zero))))))) v _ (omega arith) (
      big_endian_mod (suc (suc (suc (suc (suc (suc (suc zero))))))) (v / 256) (omega arith)
      ∙ ap (big_endian (suc (suc (suc (suc (suc (suc (suc zero)))))))) (omega arith))
big_endian_mod (suc (suc (suc (suc (suc (suc (suc (suc (suc n))))))))) v h = absurd (omega arith)

pow_256_pos : (n : ℕ) → 1 ≤ 256 ^ n
pow_256_pos zero = omega arith
pow_256_pos (suc n) = omega (arith, pow_256 n, pow_256_pos n)

pub mod_pow_256 : (n v : ℕ) → v % 256 ^ n < 256 ^ n
mod_pow_256 n v = grind (arith, pow_256_pos n)
