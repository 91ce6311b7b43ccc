-- ===== src/Codec/Number/Fixed.antt =====
-- The eight-byte encodings of util/codec/number.go.
use client_go.Base.{
  ℕ, ◌+◌, ◌%◌, ◌<◌, ◌≡◌, Ordering, [], ◌++◌, Bytes, IsU64, bytes_compare, length, length-append,
  take, drop, take-append_eq, drop-append_eq, arith,
}
use client_go.Codec.{ok}
use client_go.Codec.Number.{
  two_64, sign_mask, complement, big_endian, read_bytes, encode_int_to_cmp_uint,
  decode_cmp_uint_to_int, encode_int, encode_int_desc, decode_int, decode_int_desc, encode_uint,
  encode_uint_desc, decode_uint, decode_uint_desc,
}
use client_go.Codec.Number.BigEndian.{
  length-big_endian, read_bytes-big_endian, big_endian_ascending,
}

-- What the four decoders read from eight bytes of a word.
module _ (u : ℕ) (rest : Bytes) (h : IsU64 u) where
  front_word : read_bytes 0 (take 8 (big_endian 8 u ++ rest)) ≡ u
  front_word =
      rw (take-append_eq 8 (big_endian 8 u) rest (omega (arith, length-big_endian 8 u)))
        (read_bytes-big_endian 8 u (omega arith) h)

  back_word : drop 8 (big_endian 8 u ++ rest) ≡ rest
  back_word = drop-append_eq 8 (big_endian 8 u) rest (omega (arith, length-big_endian 8 u))

  long_enough : 8 < length (big_endian 8 u ++ rest) + 1
  long_enough = omega (arith, length-append (big_endian 8 u) rest, length-big_endian 8 u)

module _ (v : ℕ) (rest : Bytes) (h : IsU64 v) where
  pub decode_uint-encode_uint : decode_uint (encode_uint [] v ++ rest) ≡ ok (rest, v)
  unfolding decode_uint encode_uint
  decode_uint-encode_uint =
      ground (arith, front_word v rest h, back_word v rest h, long_enough v rest h)

  pub decode_uint_desc-encode_uint_desc :
      decode_uint_desc (encode_uint_desc [] v ++ rest) ≡ ok (rest, v)
  unfolding decode_uint_desc encode_uint_desc
  decode_uint_desc-encode_uint_desc =
      let u : ℕ = complement v in
      let hu : IsU64 u = omega arith in
      ground (arith, front_word u rest hu, back_word u rest hu, long_enough u rest hu)

  pub decode_int-encode_int : decode_int (encode_int [] v ++ rest) ≡ ok (rest, v)
  unfolding decode_int encode_int encode_int_to_cmp_uint decode_cmp_uint_to_int
  decode_int-encode_int =
      let u : ℕ = (v + sign_mask) % two_64 in
      let hu : IsU64 u = omega arith in
      ground (arith, front_word u rest hu, back_word u rest hu, long_enough u rest hu)

  pub decode_int_desc-encode_int_desc :
      decode_int_desc (encode_int_desc [] v ++ rest) ≡ ok (rest, v)
  unfolding decode_int_desc encode_int_desc encode_int_to_cmp_uint decode_cmp_uint_to_int
  decode_int_desc-encode_int_desc =
      let u : ℕ = complement ((v + sign_mask) % two_64) in
      let hu : IsU64 u = omega arith in
      ground (arith, front_word u rest hu, back_word u rest hu, long_enough u rest hu)

-- Each of the four fixed-width decoders reads back the 64-bit word that its encoder wrote, signed
-- or unsigned, ascending or descending, and leaves the bytes that follow.
pub fixed_round_trip :
    (v : ℕ) (rest : Bytes)
    → IsU64 v
    → (decode_int (encode_int [] v ++ rest) ≡ ok (rest, v))
      × (decode_int_desc (encode_int_desc [] v ++ rest) ≡ ok (rest, v))
      × (decode_uint (encode_uint [] v ++ rest) ≡ ok (rest, v))
      × (decode_uint_desc (encode_uint_desc [] v ++ rest) ≡ ok (rest, v))
fixed_round_trip v rest h = (
  decode_int-encode_int v rest h,
  decode_int_desc-encode_int_desc v rest h,
  decode_uint-encode_uint v rest h,
  decode_uint_desc-encode_uint_desc v rest h,
)

-- The order of signed numbers, on bit patterns.
abbrev pub SignedLt : ℕ → ℕ → Type 0
SignedLt v w = (v + sign_mask) % two_64 < (w + sign_mask) % two_64

-- For 64-bit words that stand in the unsigned order and any bytes that follow: `encode_uint` keeps
-- the order and `encode_uint_desc` reverses it.
pub fixed_order_unsigned :
    (v w : ℕ) (r s : Bytes)
    → IsU64 w
    → v < w
    → (bytes_compare (encode_uint [] v ++ r) (encode_uint [] w ++ s) ≡ Ordering.lt)
      × (bytes_compare (encode_uint_desc [] w ++ r) (encode_uint_desc [] v ++ s) ≡ Ordering.lt)
unfolding encode_uint encode_uint_desc
fixed_order_unsigned v w r s hw h = (
  big_endian_ascending 8 v w r s h (omega arith),
  big_endian_ascending 8 _ _ r s (omega arith) (omega arith),
)

-- For 64-bit words whose values as `int64` stand in order and any bytes that follow: `encode_int`
-- keeps the order and `encode_int_desc` reverses it.
pub fixed_order_signed :
    (v w : ℕ) (r s : Bytes)
    → IsU64 v
    → IsU64 w
    → SignedLt v w
    → (bytes_compare (encode_int [] v ++ r) (encode_int [] w ++ s) ≡ Ordering.lt)
      × (bytes_compare (encode_int_desc [] w ++ r) (encode_int_desc [] v ++ s) ≡ Ordering.lt)
unfolding encode_int encode_int_desc encode_int_to_cmp_uint
fixed_order_signed v w r s hv hw h = (
  big_endian_ascending 8 _ _ r s h (omega arith),
  big_endian_ascending 8 _ _ r s (omega arith) (omega arith),
)
