-- ===== src/Mvcc/RowKey.antt =====
-- `mvccEncode` and `mvccDecode` of mvcc_leveldb.go: the key of a row.
use client_go.Base.{
  ℕ, ◌<◌, ◌≡◌, refl, ◌⊎◌, inl, inr, [], ◌∷◌, ◌++◌, append-nil, Bytes, IsBytes, IsU64, Ordering,
  bytes_compare, same_prefix,
}
use client_go.Codec.{DecodeError, ok, err}
use client_go.Codec.Bytes.{encode_bytes, decode_bytes}
use client_go.Codec.Bytes.RoundTrip.{decode_bytes-encode_bytes}
use client_go.Codec.Bytes.Order.{encode_bytes_ascending}
use client_go.Codec.Number.{encode_uint_desc, decode_uint_desc}
use client_go.Codec.Number.Fixed.{fixed_round_trip, fixed_order_unsigned}

-- The errors of the codec, and `ErrInvalidEncodedKey`.
pub data RowKeyError : Type 0 where
  codec_error : DecodeError → RowKeyError
  invalid_encoded_key : RowKeyError

unfoldable pub mvcc_encode : Bytes → ℕ → Bytes
mvcc_encode key ver = encode_uint_desc (encode_bytes [] key) ver

-- What follows the call of `DecodeBytes`.
decode_version : Bytes → Bytes → RowKeyError ⊎ (Bytes × ℕ)
decode_version key [] = inr (key, 0)
decode_version key (b ∷ bs) = elim (decode_uint_desc (b ∷ bs)) [
  | err e ↦ inl (codec_error e)
  | ok ([], ver) ↦ inr (key, ver)
  | ok (c ∷ cs, ver) ↦ inl invalid_encoded_key
]

unfoldable pub mvcc_decode : Bytes → RowKeyError ⊎ (Bytes × ℕ)
unfolding decode_version
mvcc_decode encoded_key = elim (decode_bytes encoded_key) [
  | err e ↦ inl (codec_error e)
  | ok (remain_bytes, key) ↦ decode_version key remain_bytes
]

encode_uint_desc-append :
    (b : Bytes) (ver : ℕ) → encode_uint_desc b ver ≡ b ++ encode_uint_desc [] ver
unfolding encode_uint_desc
encode_uint_desc-append b ver = refl

decode_version_exact :
    (key b : Bytes) (ver : ℕ)
    → decode_uint_desc b ≡ ok ([], ver)
    → decode_version key b ≡ inr (key, ver)
unfolding decode_version decode_uint_desc
decode_version_exact key [] ver h = cc
decode_version_exact key (b ∷ bs) ver h = rw (h, decode_version) refl

decode_version-encode_uint_desc :
    (key : Bytes) (ver : ℕ)
    → IsU64 ver
    → decode_version key (encode_uint_desc [] ver) ≡ inr (key, ver)
decode_version-encode_uint_desc key ver h =
    let (_, _, _, read) = fixed_round_trip ver [] h in
    decode_version_exact key (encode_uint_desc [] ver) ver
      (rw (append-nil (encode_uint_desc [] ver)) at read)

-- A key and a version below 2 ^ 64 are read back from the row key that they make up.
pub mvcc_decode-mvcc_encode :
    (key : Bytes) (ver : ℕ) → IsU64 ver → mvcc_decode (mvcc_encode key ver) ≡ inr (key, ver)
unfolding mvcc_decode mvcc_encode
mvcc_decode-mvcc_encode key ver h =
    rw
      (
        encode_uint_desc-append (encode_bytes [] key) ver,
        mvcc_decode,
        decode_bytes-encode_bytes key (encode_uint_desc [] ver),
      )
      (decode_version-encode_uint_desc key ver h)

-- Row keys stand in the order of the keys, and for one key from the newest version to the oldest:
-- the row of a lock, at the version 2 ^ 64 - 1, is the first.
pub mvcc_encode_order :
    (key other : Bytes) (ver ver' : ℕ)
    → IsBytes other
    → IsU64 ver
    → (bytes_compare key other ≡ Ordering.lt) ⊎ ((key ≡ other) × (ver' < ver))
    → bytes_compare (mvcc_encode key ver) (mvcc_encode other ver') ≡ Ordering.lt
unfolding mvcc_encode
mvcc_encode_order key other ver ver' hb hv (inl below) =
    rw
      (
        encode_uint_desc-append (encode_bytes [] key) ver,
        encode_uint_desc-append (encode_bytes [] other) ver',
      )
      (encode_bytes_ascending key other (encode_uint_desc [] ver) (encode_uint_desc [] ver') hb
        below)
mvcc_encode_order key other ver ver' hb hv (inr (same, newer)) =
    rw
      (
        same,
        encode_uint_desc-append (encode_bytes [] other) ver,
        encode_uint_desc-append (encode_bytes [] other) ver',
        same_prefix (encode_bytes [] other) (encode_uint_desc [] ver) (encode_uint_desc [] ver'),
      )
      (rw (append-nil (encode_uint_desc [] ver), append-nil (encode_uint_desc [] ver')) at
        (fixed_order_unsigned ver' ver [] [] hv newer).1)
