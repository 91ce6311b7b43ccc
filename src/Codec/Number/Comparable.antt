-- ===== src/Codec/Number/Comparable.antt =====
-- The variable-length encodings of util/codec/number.go that keep the order.
use client_go.Base.{
  ℕ, ◌+◌, ◌-◌, ◌^◌, ◌≤◌, ◌<◌, ◌≡◌, ◌∙◌, ◌⊎◌, inl, inr, Ordering, if◌then◌else◌, leb, [], ◌∷◌, ◌++◌,
  Bytes, IsU64, bytes_compare, length, length-append, take, drop, take-append_eq, drop-append_eq,
  arith,
}
use client_go.Codec.{ok}
use client_go.Codec.Number.{big_endian, encode_comparable_uvarint, decode_comparable_uvarint}
use client_go.Codec.Number.BigEndian.{
  length-big_endian, read_bytes-big_endian, big_endian_ascending, lt_or_eq,
}

-- The number of bytes behind the tag; 0 for a value that the tag holds.
pub width : ℕ → ℕ
width v =
    if leb v 239
    then 0
    else if leb v 0xff
    then 1
    else if leb v 0xffff
    then 2
    else if leb v 0xff_ffff
    then 3
    else if leb v 0xffff_ffff
    then 4
    else if leb v 0xff_ffff_ffff
    then 5
    else if leb v 0xffff_ffff_ffff
    then 6
    else if leb v 0xff_ffff_ffff_ffff
    then 7
    else 8

pub width_mono : (v w : ℕ) → v ≤ w → width v ≤ width w
unfolding width
width_mono v w h = ground arith

pub width_cases :
    (v : ℕ) → ((width v ≡ 0) × (v ≤ 239)) ⊎ ((1 ≤ width v) × (width v ≤ 8) × (240 ≤ v))
unfolding width
width_cases v = ground arith

pub width_fits : (v : ℕ) → IsU64 v → 240 ≤ v → v < 256 ^ width v
unfolding width
width_fits v h k = ground arith

pub uvarint_short : (v : ℕ) → v ≤ 239 → encode_comparable_uvarint [] v ≡ (v + 8) ∷ []
unfolding encode_comparable_uvarint
uvarint_short v h = ground arith

pub uvarint_long :
    (v : ℕ) → 240 ≤ v → encode_comparable_uvarint [] v ≡ (247 + width v) ∷ big_endian (width v) v
unfolding encode_comparable_uvarint width
uvarint_long v h = ground arith

-- Taking `n` bytes of a number off the front, when the decoder knows `n`.
module _ (n v : ℕ) (rest : Bytes) where
  pub front_bytes : take n (big_endian n v ++ rest) ≡ big_endian n v
  front_bytes = take-append_eq n (big_endian n v) rest (omega (arith, length-big_endian n v))

  pub back_bytes : drop n (big_endian n v ++ rest) ≡ rest
  back_bytes = drop-append_eq n (big_endian n v) rest (omega (arith, length-big_endian n v))

  pub enough_bytes : n ≤ length (big_endian n v ++ rest)
  enough_bytes = omega (arith, length-append (big_endian n v) rest, length-big_endian n v)

uvarint_decode_long :
    (n v : ℕ) (rest : Bytes)
    → 1 ≤ n
    → v < 256 ^ n
    → IsU64 v
    → decode_comparable_uvarint ((247 + n) ∷ (big_endian n v ++ rest)) ≡ ok (rest, v)
unfolding decode_comparable_uvarint
uvarint_decode_long n v rest lo fits h =
    let len : 247 + n - 247 ≡ n = omega arith in
    rw len (
      ground (
        arith,
        front_bytes n v rest,
        back_bytes n v rest,
        enough_bytes n v rest,
        read_bytes-big_endian n v fits h,
      ))

uvarint_decode_short :
    (v : ℕ) (rest : Bytes) → v ≤ 239 → decode_comparable_uvarint ((v + 8) ∷ rest) ≡ ok (rest, v)
unfolding decode_comparable_uvarint
uvarint_decode_short v rest h = ground arith

-- `decode_comparable_uvarint` reads back every 64-bit number that `encode_comparable_uvarint` wrote,
-- and leaves the bytes that follow.
pub decode_comparable_uvarint-encode_comparable_uvarint :
    (v : ℕ) (rest : Bytes)
    → IsU64 v
    → decode_comparable_uvarint (encode_comparable_uvarint [] v ++ rest) ≡ ok (rest, v)
decode_comparable_uvarint-encode_comparable_uvarint v rest h = elim (width_cases v) [
  | inl (_, low) ↦ rw (uvarint_short v low) (uvarint_decode_short v rest low)
  | inr (lo, hi, high) ↦
      rw (uvarint_long v high) (uvarint_decode_long (width v) v rest lo (width_fits v h high) h)
]

pub tags_lt : (a b : ℕ) (r s : Bytes) → a < b → bytes_compare (a ∷ r) (b ∷ s) ≡ Ordering.lt
unfolding bytes_compare
tags_lt a b r s h = ground arith

pub same_tag : (a : ℕ) (r s : Bytes) → bytes_compare (a ∷ r) (a ∷ s) ≡ bytes_compare r s
unfolding bytes_compare
same_tag a r s = ground arith

-- Of two 64-bit numbers the smaller one has the encoding that comes first, whatever bytes follow.
pub encode_comparable_uvarint_ascending :
    (v w : ℕ) (r s : Bytes)
    → IsU64 w
    → v < w
    → bytes_compare (encode_comparable_uvarint [] v ++ r) (encode_comparable_uvarint [] w ++ s)
      ≡ Ordering.lt
encode_comparable_uvarint_ascending v w r s hw h = elim (width_cases v) [
  | inl (_, low) ↦ elim (width_cases w) [
    | inl (_, low') ↦ rw (uvarint_short v low, uvarint_short w low') (tags_lt _ _ r s (omega arith))
    | inr (lo, hi, high) ↦
        rw (uvarint_short v low, uvarint_long w high) (tags_lt _ _ r _ (omega arith))
  ]
  | inr (lo, hi, high) ↦
      let high' : 240 ≤ w = omega arith in
      rw (uvarint_long v high, uvarint_long w high')
        (elim (lt_or_eq (width v) (width w) (width_mono v w (omega arith))) [
          | inl below ↦ tags_lt _ _ _ _ (omega arith)
          | inr same ↦ rw same (
              same_tag (247 + width w) (big_endian (width w) v ++ r) (big_endian (width w) w ++ s)
              ∙ big_endian_ascending (width w) v w r s h (width_fits w hw high'))
        ])
]
