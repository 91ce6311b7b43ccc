-- ===== src/Codec/Number.antt =====
-- util/codec/number.go: numbers as bytes. An `int64` is its two's-complement bit pattern, so the
-- conversions `uint64(v)` and `int64(u)` are the identity and `v < 0` is the test of the top bit.
pub mod BigEndian
pub mod Fixed
pub mod Comparable
pub mod Signed
use client_go.Base.{
  ℕ, zero, suc, ◌+◌, ◌-◌, ◌*◌, ◌/◌, ◌%◌, ◌^◌, Bool, if◌then◌else◌, ltb, leb, ◌&&◌, [], ◌∷◌, ◌++◌,
  Bytes, length, take, drop, get_or,
}
use client_go.Codec.{Result, ok, err, insufficient, invalid}

abbrev pub two_64 : ℕ
two_64 = 0x1_0000_0000_0000_0000

abbrev pub sign_mask : ℕ
sign_mask = 0x8000_0000_0000_0000

-- The low `n` bytes of `v`, highest first: `byte(v>>(8*(n-1))), …, byte(v>>8), byte(v)`.
-- With `n = 8` this is `binary.BigEndian.PutUint64`.
unfoldable pub big_endian : ℕ → ℕ → Bytes
big_endian zero v = []
big_endian (suc n) v = big_endian n (v / 256) ++ ((v % 256) ∷ [])

-- `for _, c := range bs { v = (v << 8) | uint64(c) }` from `v`. From 0 over eight bytes this is
-- `binary.BigEndian.Uint64`.
unfoldable pub read_bytes : ℕ → Bytes → ℕ
read_bytes v [] = v
read_bytes v (c ∷ cs) = read_bytes ((v * 256 + c) % two_64) cs

-- `^u`.
abbrev pub complement : ℕ → ℕ
complement u = two_64 - 1 - u

-- An exclusive or with the top bit alone is the addition of 2 ^ 63.
unfoldable pub encode_int_to_cmp_uint : ℕ → ℕ
encode_int_to_cmp_uint v = (v + sign_mask) % two_64

unfoldable pub decode_cmp_uint_to_int : ℕ → ℕ
decode_cmp_uint_to_int u = (u + sign_mask) % two_64

pub encode_int : Bytes → ℕ → Bytes
encode_int b v = b ++ big_endian 8 (encode_int_to_cmp_uint v)

pub encode_int_desc : Bytes → ℕ → Bytes
encode_int_desc b v = b ++ big_endian 8 (complement (encode_int_to_cmp_uint v))

pub decode_int : Bytes → Result (Bytes × ℕ)
decode_int b =
    if ltb (length b) 8
    then err insufficient
    else ok (drop 8 b, decode_cmp_uint_to_int (read_bytes 0 (take 8 b)))

pub decode_int_desc : Bytes → Result (Bytes × ℕ)
decode_int_desc b =
    if ltb (length b) 8
    then err insufficient
    else ok (drop 8 b, decode_cmp_uint_to_int (complement (read_bytes 0 (take 8 b))))

unfoldable pub encode_uint : Bytes → ℕ → Bytes
encode_uint b v = b ++ big_endian 8 v

unfoldable pub encode_uint_desc : Bytes → ℕ → Bytes
encode_uint_desc b v = b ++ big_endian 8 (complement v)

unfoldable pub decode_uint : Bytes → Result (Bytes × ℕ)
decode_uint b =
    if ltb (length b) 8 then err insufficient else ok (drop 8 b, read_bytes 0 (take 8 b))

unfoldable pub decode_uint_desc : Bytes → Result (Bytes × ℕ)
decode_uint_desc b =
    if ltb (length b) 8
    then err insufficient
    else ok (drop 8 b, complement (read_bytes 0 (take 8 b)))

abbrev pub negative_tag_end : ℕ
negative_tag_end = 8

abbrev pub positive_tag_start : ℕ
positive_tag_start = 0xff - 8

pub encode_comparable_uvarint : Bytes → ℕ → Bytes
encode_comparable_uvarint b v =
    if leb v (positive_tag_start - negative_tag_end)
    then b ++ ((v % 256 + negative_tag_end) ∷ [])
    else if leb v 0xff
    then b ++ ((positive_tag_start + 1) ∷ big_endian 1 v)
    else if leb v 0xffff
    then b ++ ((positive_tag_start + 2) ∷ big_endian 2 v)
    else if leb v 0xff_ffff
    then b ++ ((positive_tag_start + 3) ∷ big_endian 3 v)
    else if leb v 0xffff_ffff
    then b ++ ((positive_tag_start + 4) ∷ big_endian 4 v)
    else if leb v 0xff_ffff_ffff
    then b ++ ((positive_tag_start + 5) ∷ big_endian 5 v)
    else if leb v 0xffff_ffff_ffff
    then b ++ ((positive_tag_start + 6) ∷ big_endian 6 v)
    else if leb v 0xff_ffff_ffff_ffff
    then b ++ ((positive_tag_start + 7) ∷ big_endian 7 v)
    else b ++ ((positive_tag_start + 8) ∷ big_endian 8 v)

-- `-k` as a bit pattern.
abbrev minus : ℕ → ℕ
minus k = two_64 - k

-- The order of signed numbers on their bit patterns: `a >= b`.
abbrev signed_ge : ℕ → ℕ → Bool
signed_ge a b = leb ((b + sign_mask) % two_64) ((a + sign_mask) % two_64)

pub encode_comparable_varint : Bytes → ℕ → Bytes
encode_comparable_varint b v =
    if leb sign_mask v
    then (if signed_ge v (minus 0xff)
        then b ++ ((negative_tag_end - 1) ∷ big_endian 1 v)
        else if signed_ge v (minus 0xffff)
        then b ++ ((negative_tag_end - 2) ∷ big_endian 2 v)
        else if signed_ge v (minus 0xff_ffff)
        then b ++ ((negative_tag_end - 3) ∷ big_endian 3 v)
        else if signed_ge v (minus 0xffff_ffff)
        then b ++ ((negative_tag_end - 4) ∷ big_endian 4 v)
        else if signed_ge v (minus 0xff_ffff_ffff)
        then b ++ ((negative_tag_end - 5) ∷ big_endian 5 v)
        else if signed_ge v (minus 0xffff_ffff_ffff)
        then b ++ ((negative_tag_end - 6) ∷ big_endian 6 v)
        else if signed_ge v (minus 0xff_ffff_ffff_ffff)
        then b ++ ((negative_tag_end - 7) ∷ big_endian 7 v)
        else b ++ ((negative_tag_end - 8) ∷ big_endian 8 v))
    else encode_comparable_uvarint b v

pub decode_comparable_uvarint : Bytes → Result (Bytes × ℕ)
decode_comparable_uvarint [] = err insufficient
decode_comparable_uvarint (first ∷ b) =
    let len : ℕ = first - positive_tag_start in
    if ltb first negative_tag_end
    then err invalid
    else if leb first positive_tag_start
    then ok (b, first - negative_tag_end)
    else if ltb (length b) len
    then err insufficient
    else ok (drop len b, read_bytes 0 (take len b))

-- The leftover of a single-byte value is `b` itself, its first byte included: the source takes that
-- byte off only after this return.
pub decode_comparable_varint : Bytes → Result (Bytes × ℕ)
decode_comparable_varint [] = err insufficient
decode_comparable_varint (first ∷ b) =
    let negative : Bool = ltb first negative_tag_end in
    let len : ℕ = if negative then negative_tag_end - first else first - positive_tag_start in
    let v : ℕ = read_bytes (if negative then two_64 - 1 else 0) (take len b) in
    if leb negative_tag_end first && leb first positive_tag_start
    then ok (first ∷ b, first - negative_tag_end)
    else if ltb (length b) len
    then err insufficient
    else if ltb positive_tag_start first && leb sign_mask v
    then err invalid
    else if negative && ltb v sign_mask
    then err invalid
    else ok (drop len b, v)
