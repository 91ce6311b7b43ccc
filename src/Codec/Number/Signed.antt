-- ===== src/Codec/Number/Signed.antt =====
-- `encode_comparable_varint` and `decode_comparable_varint` of util/codec/number.go.
use client_go.Base.{
  ℕ, ◌+◌, ◌-◌, ◌%◌, ◌^◌, ◌≤◌, ◌<◌, ◌≡◌, ◌∙◌, ◌⊎◌, inl, inr, Ordering, if◌then◌else◌, leb, [], ◌∷◌,
  ◌++◌, Bytes, IsU64, bytes_compare, arith,
}
use client_go.Codec.{ok}
use client_go.Codec.Number.{
  two_64, sign_mask, big_endian, read_bytes, encode_comparable_uvarint, encode_comparable_varint,
  decode_comparable_varint,
}
use client_go.Codec.Number.BigEndian.{
  read_bytes-big_endian, read_bytes_negative, big_endian_ascending, lt_or_eq, big_endian_mod,
  mod_pow_256,
}
use client_go.Codec.Number.Fixed.{SignedLt}
use client_go.Codec.Number.Comparable.{
  front_bytes, back_bytes, enough_bytes, width, width_fits, width_cases, uvarint_short,
  uvarint_long, tags_lt, same_tag, encode_comparable_uvarint_ascending,
}

-- The number of bytes behind the tag of a negative number.
negative_width : ℕ → ℕ
negative_width v =
    let size : ℕ = two_64 - v in
    if leb size 0xff
    then 1
    else if leb size 0xffff
    then 2
    else if leb size 0xff_ffff
    then 3
    else if leb size 0xffff_ffff
    then 4
    else if leb size 0xff_ffff_ffff
    then 5
    else if leb size 0xffff_ffff_ffff
    then 6
    else if leb size 0xff_ffff_ffff_ffff
    then 7
    else 8

module _ (v : ℕ) (h : IsU64 v) (neg : sign_mask ≤ v) where
  negative_width_bounds : (1 ≤ negative_width v) × (negative_width v ≤ 8)
  unfolding negative_width
  negative_width_bounds = ground arith

  sign_extended : two_64 - 256 ^ negative_width v + v % 256 ^ negative_width v ≡ v
  unfolding negative_width
  sign_extended = ground arith

  varint_negative :
      encode_comparable_varint [] v ≡ (8 - negative_width v) ∷ big_endian (negative_width v) v
  unfolding encode_comparable_varint negative_width
  varint_negative = ground arith

varint_nonnegative :
    (v : ℕ) → v < sign_mask → encode_comparable_varint [] v ≡ encode_comparable_uvarint [] v
unfolding encode_comparable_varint
varint_nonnegative v h = ground arith

decode_negative :
    (n v : ℕ) (rest : Bytes)
    → 1 ≤ n
    → n ≤ 8
    → sign_mask ≤ v
    → read_bytes (two_64 - 1) (big_endian n v) ≡ v
    → decode_comparable_varint ((8 - n) ∷ (big_endian n v ++ rest)) ≡ ok (rest, v)
unfolding decode_comparable_varint
decode_negative n v rest lo hi neg e =
    let len : 8 - (8 - n) ≡ n = omega arith in
    rw len (ground (arith, front_bytes n v rest, back_bytes n v rest, enough_bytes n v rest))

decode_positive :
    (n v : ℕ) (rest : Bytes)
    → 1 ≤ n
    → v < sign_mask
    → read_bytes 0 (big_endian n v) ≡ v
    → decode_comparable_varint ((247 + n) ∷ (big_endian n v ++ rest)) ≡ ok (rest, v)
unfolding decode_comparable_varint
decode_positive n v rest lo small e =
    let len : 247 + n - 247 ≡ n = omega arith in
    rw len (ground (arith, front_bytes n v rest, back_bytes n v rest, enough_bytes n v rest))

decode_short :
    (v : ℕ) (rest : Bytes)
    → v ≤ 239
    → decode_comparable_varint ((v + 8) ∷ rest) ≡ ok ((v + 8) ∷ rest, v)
unfolding decode_comparable_varint
decode_short v rest h = ground arith

abbrev leftover : ℕ → Bytes → Bytes
leftover v rest = if leb v 239 then encode_comparable_varint [] v ++ rest else rest

leftover_long : (v : ℕ) (rest : Bytes) → 240 ≤ v → leftover v rest ≡ rest
leftover_long v rest h = ground arith

leftover_short :
    (v : ℕ) (rest : Bytes) → v ≤ 239 → leftover v rest ≡ encode_comparable_varint [] v ++ rest
leftover_short v rest h = ground arith

sign_cases : (v : ℕ) → (v < sign_mask) ⊎ (sign_mask ≤ v)
sign_cases v = omega arith

-- For every `int64`, given by its bit pattern: `decode_comparable_varint` reads back the value that
-- `encode_comparable_varint` wrote. What it returns as the leftover is the bytes that follow,
-- except for the values 0 to 239, which take one byte: there it is the whole input.
pub decode_comparable_varint-encode_comparable_varint :
    (v : ℕ) (rest : Bytes)
    → IsU64 v
    → decode_comparable_varint (encode_comparable_varint [] v ++ rest)
      ≡ ok ((if leb v 239 then encode_comparable_varint [] v ++ rest else rest), v)
decode_comparable_varint-encode_comparable_varint v rest h = elim (sign_cases v) [
  | inr neg ↦
      let (lo, hi) = negative_width_bounds v h neg in
      rw (leftover_long v rest (omega arith), varint_negative v h neg)
        (decode_negative (negative_width v) v rest lo hi neg
          (read_bytes_negative (negative_width v) v hi ∙ sign_extended v h neg))
  | inl pos ↦ elim (width_cases v) [
    | inl (_, low) ↦
        rw (leftover_short v rest low, varint_nonnegative v pos, uvarint_short v low)
          (decode_short v rest low)
    | inr (lo, hi, high) ↦
        rw (leftover_long v rest high, varint_nonnegative v pos, uvarint_long v high)
          (decode_positive (width v) v rest lo pos
            (read_bytes-big_endian (width v) v (width_fits v h high) h))
  ]
]

negative_width_anti : (v w : ℕ) → v ≤ w → negative_width w ≤ negative_width v
unfolding negative_width
negative_width_anti v w h = ground arith

low_bytes_lt :
    (v w : ℕ)
    → IsU64 v
    → IsU64 w
    → sign_mask ≤ v
    → v < w
    → negative_width v ≡ negative_width w
    → v % 256 ^ negative_width v < w % 256 ^ negative_width v
low_bytes_lt v w hv hw neg lt same =
    omega (arith, sign_extended v hv neg, rw (← same) at (sign_extended w hw (omega arith)))

positive_tag :
    (v : ℕ) → IsU64 v → (t : ℕ) × (r : Bytes) × (encode_comparable_uvarint [] v ≡ t ∷ r) × (8 ≤ t)
positive_tag v h = elim (width_cases v) [
  | inl (_, low) ↦ (v + 8, [], uvarint_short v low, omega arith)
  | inr (lo, hi, high) ↦ (247 + width v, big_endian (width v) v, uvarint_long v high, omega arith)
]

negative_ascending :
    (v w : ℕ) (r s : Bytes)
    → IsU64 v
    → IsU64 w
    → sign_mask ≤ v
    → v < w
    → bytes_compare (encode_comparable_varint [] v ++ r) (encode_comparable_varint [] w ++ s)
      ≡ Ordering.lt
negative_ascending v w r s hv hw neg lt =
    let neg' : sign_mask ≤ w = omega arith in
    let (lo, hi) = negative_width_bounds v hv neg in
    rw (varint_negative v hv neg, varint_negative w hw neg')
      (elim (lt_or_eq (negative_width w) (negative_width v)
        (negative_width_anti v w (omega arith))) [
          | inl below ↦ tags_lt _ _ _ _ (omega (arith, negative_width_bounds w hw neg'))
          | inr same ↦ rw same (
              same_tag _ _ _
              ∙ rw (big_endian_mod (negative_width v) v hi, big_endian_mod (negative_width v) w hi)
                  (big_endian_ascending (negative_width v) _ _ r s
                    (low_bytes_lt v w hv hw neg lt (omega arith))
                    (mod_pow_256 (negative_width v) w)))
        ])

nonnegative_ascending :
    (v w : ℕ) (r s : Bytes)
    → IsU64 v
    → IsU64 w
    → sign_mask ≤ v
    → w < sign_mask
    → bytes_compare (encode_comparable_varint [] v ++ r) (encode_comparable_varint [] w ++ s)
      ≡ Ordering.lt
nonnegative_ascending v w r s hv hw neg pos =
    let (t, tail, e, tag) = positive_tag w hw in
    rw (varint_negative v hv neg, varint_nonnegative w pos, e)
      (tags_lt _ _ _ _ (omega (arith, negative_width_bounds v hv neg)))

-- Of two `int64` values the smaller one, in the signed order, has the encoding that comes first,
-- whatever bytes follow.
pub encode_comparable_varint_ascending :
    (v w : ℕ) (r s : Bytes)
    → IsU64 v
    → IsU64 w
    → SignedLt v w
    → bytes_compare (encode_comparable_varint [] v ++ r) (encode_comparable_varint [] w ++ s)
      ≡ Ordering.lt
encode_comparable_varint_ascending v w r s hv hw h = elim (sign_cases v) [
  | inl pos ↦
      rw (varint_nonnegative v pos, varint_nonnegative w (omega arith))
        (encode_comparable_uvarint_ascending v w r s hw (omega arith))
  | inr neg ↦ elim (sign_cases w) [
    | inl pos ↦ nonnegative_ascending v w r s hv hw neg pos
    | inr neg' ↦ negative_ascending v w r s hv hw neg (omega arith)
  ]
]
