-- ===== src/Tests/Encodings.antt =====
-- Concrete encodings of byte slices and numbers, and timestamps.
use client_go.Base.{
  ℕ, ◌≡◌, refl, inr, [], ◌∷◌, ◌++◌, Ordering, bytes_compare, if◌then◌else◌, leb, arith,
}
use client_go.Codec.{ok}
use client_go.Codec.Bytes.{encode_bytes, decode_bytes}
use client_go.Codec.Bytes.RoundTrip.{decode_bytes-encode_bytes, encode_bytes-decode_bytes}
use client_go.Codec.Bytes.Order.{encode_bytes_ascending}
use client_go.Codec.Number.{
  encode_int, decode_int, encode_int_desc, decode_int_desc, encode_uint, decode_uint,
  encode_uint_desc, decode_uint_desc, encode_comparable_uvarint, decode_comparable_uvarint,
  encode_comparable_varint, decode_comparable_varint,
}
use client_go.Codec.Number.Fixed.{fixed_round_trip, fixed_order_signed}
use client_go.Codec.Number.Comparable.{
  decode_comparable_uvarint-encode_comparable_uvarint, encode_comparable_uvarint_ascending,
}
use client_go.Codec.Number.Signed.{
  decode_comparable_varint-encode_comparable_varint, encode_comparable_varint_ascending,
}
use client_go.Mvcc.RowKey.{mvcc_encode, mvcc_decode, mvcc_decode-mvcc_encode, mvcc_encode_order}

abbrev minus_five : ℕ
minus_five = 0xffff_ffff_ffff_fffb

decode_bytes-encode_bytes_example :
    decode_bytes (encode_bytes [] (1 ∷ 2 ∷ 3 ∷ 4 ∷ 5 ∷ 6 ∷ 7 ∷ 8 ∷ []) ++ (9 ∷ []))
    ≡ ok ((9 ∷ []), (1 ∷ 2 ∷ 3 ∷ 4 ∷ 5 ∷ 6 ∷ 7 ∷ 8 ∷ []))
decode_bytes-encode_bytes_example =
    decode_bytes-encode_bytes (1 ∷ 2 ∷ 3 ∷ 4 ∷ 5 ∷ 6 ∷ 7 ∷ 8 ∷ []) (9 ∷ [])

encode_bytes_ascending_example :
    bytes_compare (encode_bytes [] (1 ∷ []) ++ (255 ∷ [])) (encode_bytes [] (1 ∷ 0 ∷ []) ++ [])
    ≡ Ordering.lt
unfolding bytes_compare
encode_bytes_ascending_example =
    encode_bytes_ascending (1 ∷ []) (1 ∷ 0 ∷ []) (255 ∷ []) [] (omega arith, (omega arith, tt)) refl

encode_bytes-decode_bytes_example :
    (97 ∷ 0 ∷ 0 ∷ 0 ∷ 0 ∷ 0 ∷ 0 ∷ 0 ∷ 248 ∷ 7 ∷ []) ≡ encode_bytes [] (97 ∷ []) ++ (7 ∷ [])
unfolding decode_bytes
encode_bytes-decode_bytes_example =
    encode_bytes-decode_bytes (97 ∷ 0 ∷ 0 ∷ 0 ∷ 0 ∷ 0 ∷ 0 ∷ 0 ∷ 248 ∷ 7 ∷ []) (7 ∷ []) (97 ∷ [])
      ((
        omega arith,
        (
          omega arith,
          (
            omega arith,
            (
              omega arith,
              (
                omega arith,
                (omega arith, (omega arith, (omega arith, (omega arith, (omega arith, tt))))),
              ),
            ),
          ),
        ),
      ))
      refl

fixed_round_trip_example :
    (decode_int (encode_int [] minus_five ++ (1 ∷ [])) ≡ ok ((1 ∷ []), minus_five))
    × (decode_int_desc (encode_int_desc [] minus_five ++ (1 ∷ [])) ≡ ok ((1 ∷ []), minus_five))
    × (decode_uint (encode_uint [] minus_five ++ (1 ∷ [])) ≡ ok ((1 ∷ []), minus_five))
    × (decode_uint_desc (encode_uint_desc [] minus_five ++ (1 ∷ [])) ≡ ok ((1 ∷ []), minus_five))
fixed_round_trip_example = fixed_round_trip minus_five (1 ∷ []) (omega arith)

fixed_order_signed_example :
    (bytes_compare (encode_int [] minus_five ++ []) (encode_int [] 3 ++ []) ≡ Ordering.lt)
    × (bytes_compare (encode_int_desc [] 3 ++ []) (encode_int_desc [] minus_five ++ [])
        ≡ Ordering.lt)
fixed_order_signed_example =
    fixed_order_signed minus_five 3 [] [] (omega arith) (omega arith) (omega arith)

uvarint_round_trip_example :
    decode_comparable_uvarint (encode_comparable_uvarint [] 70000 ++ (1 ∷ []))
    ≡ ok ((1 ∷ []), 70000)
uvarint_round_trip_example =
    decode_comparable_uvarint-encode_comparable_uvarint 70000 (1 ∷ []) (omega arith)

encode_comparable_uvarint_ascending_example :
    bytes_compare
      (encode_comparable_uvarint [] 200 ++ [])
      (encode_comparable_uvarint [] 70000 ++ [])
    ≡ Ordering.lt
encode_comparable_uvarint_ascending_example =
    encode_comparable_uvarint_ascending 200 70000 [] [] (omega arith) (omega arith)

varint_round_trip_example :
    decode_comparable_varint (encode_comparable_varint [] minus_five ++ (1 ∷ []))
    ≡ ok (
      (if leb minus_five 239 then encode_comparable_varint [] minus_five ++ (1 ∷ []) else (1 ∷ [])),
      minus_five,
    )
varint_round_trip_example =
    decode_comparable_varint-encode_comparable_varint minus_five (1 ∷ []) (omega arith)

encode_comparable_varint_ascending_example :
    bytes_compare
      (encode_comparable_varint [] minus_five ++ [])
      (encode_comparable_varint [] 3 ++ [])
    ≡ Ordering.lt
encode_comparable_varint_ascending_example =
    encode_comparable_varint_ascending minus_five 3 [] [] (omega arith) (omega arith) (omega arith)

mvcc_decode-mvcc_encode_example : mvcc_decode (mvcc_encode (1 ∷ 2 ∷ []) 9) ≡ inr ((1 ∷ 2 ∷ []), 9)
mvcc_decode-mvcc_encode_example = mvcc_decode-mvcc_encode (1 ∷ 2 ∷ []) 9 (omega arith)

mvcc_encode_order_example :
    bytes_compare (mvcc_encode (1 ∷ []) 9) (mvcc_encode (1 ∷ []) 7) ≡ Ordering.lt
mvcc_encode_order_example =
    mvcc_encode_order (1 ∷ []) (1 ∷ []) 9 7 (omega arith, tt) (omega arith)
      (inr (refl, omega arith))
