-- ===== src/Codec/Bytes.antt =====
-- util/codec/bytes.go: the memcomparable encoding of a byte slice.
pub mod Spec
pub mod RoundTrip
pub mod Order
use client_go.Base.{
  ℕ, zero, suc, ◌+◌, ◌-◌, ◌%◌, ◌/◌, Bool, true, false, if◌then◌else◌, ltb, leb, ◌&&◌, ◌==◌, List,
  [], ◌∷◌, ◌++◌, map, Bytes, length, take, drop, replicate, get_or,
}
use client_go.Codec.{Result, ok, err, insufficient, invalid_marker, invalid_padding}

abbrev pub enc_group_size : ℕ
enc_group_size = 8

abbrev pub enc_marker : ℕ
enc_marker = 0xff

abbrev pub enc_pad : ℕ
enc_pad = 0

-- The bytes that one round of the loop appends, `rest` being `data[idx:]`.
unfoldable pub encode_group : Bytes → Bytes
encode_group rest =
    let pad_count : ℕ =
      if leb enc_group_size (length rest) then 0 else enc_group_size - length rest in
    (if leb enc_group_size (length rest)
      then take enc_group_size rest
      else rest ++ replicate pad_count enc_pad)
    ++ ((enc_marker - pad_count) ∷ [])

-- `for idx := 0; idx <= dLen; idx += encGroupSize` takes `dLen / 8 + 1` rounds.
unfoldable pub encode_loop : ℕ → Bytes → Bytes → Bytes
encode_loop zero result rest = result
encode_loop (suc rounds) result rest =
    encode_loop rounds (result ++ encode_group rest) (drop enc_group_size rest)

unfoldable pub encode_bytes : Bytes → Bytes → Bytes
unfolding encode_loop encode_group
encode_bytes b dat = encode_loop (length dat / enc_group_size + 1) b dat

-- `b[i] = ^b[i]` for each byte. The word-wise variant for some machines does the same to the same bytes.
unfoldable pub reverse_bytes : Bytes → Bytes
reverse_bytes = map (λ b. 0xff - b)

abbrev pub all_are : ℕ → Bytes → Bool
all_are v [] = true
all_are v (b ∷ bs) = b == v && all_are v bs

-- Each round takes nine bytes off `b`, so `length b` rounds are enough: with none left
-- `b` is empty, and the answer is the one of the length test.
unfoldable pub decode_loop : ℕ → Bytes → Bytes → Bool → Result (Bytes × Bytes)
decode_loop zero b buf reverse = err insufficient
decode_loop (suc fuel) b buf reverse =
    let group : Bytes = take enc_group_size b in
    let marker : ℕ = get_or b enc_group_size 0 in
    let pad_count : ℕ = if reverse then marker else (enc_marker + 256 - marker) % 256 in
    let real_group_size : ℕ = enc_group_size - pad_count in
    let buf' : Bytes = buf ++ take real_group_size group in
    let b' : Bytes = drop (enc_group_size + 1) b in
    let next = decode_loop fuel b' buf' reverse in
    let pad_byte : ℕ = if reverse then enc_marker else enc_pad in
    if ltb (length b) (enc_group_size + 1)
    then err insufficient
    else if ltb enc_group_size pad_count
    then err invalid_marker
    else if pad_count == 0
    then next
    else if all_are pad_byte (drop real_group_size group)
    then ok (b', buf')
    else err invalid_padding

unfoldable pub decode_bytes_in : Bytes → Bool → Result (Bytes × Bytes)
unfolding decode_loop
decode_bytes_in b reverse = elim (decode_loop (length b) b [] reverse) [
  | err e ↦ err e
  | ok (rest, buf) ↦ ok (rest, if reverse then reverse_bytes buf else buf)
]

unfoldable pub decode_bytes : Bytes → Result (Bytes × Bytes)
unfolding decode_bytes_in
decode_bytes b = decode_bytes_in b false
