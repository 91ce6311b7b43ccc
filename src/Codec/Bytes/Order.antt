-- ===== src/Codec/Bytes/Order.antt =====
-- The encoding of util/codec/bytes.go keeps the order of byte slices.
use client_go.Base.{
  ℕ, zero, suc, ◌-◌, ◌≤◌, ◌<◌, ◌≡◌, Ordering, [], ◌∷◌, ◌++◌, Bytes, IsBytes, bytes_compare,
  replicate, append_assoc, arith,
}
use client_go.Codec.Bytes.{encode_bytes}
use client_go.Codec.Bytes.Spec.{encoding, encode_bytes-encoding}

pads_lt :
    (n m m' : ℕ) (r s : Bytes)
    → m < m'
    → bytes_compare (replicate n 0 ++ (m ∷ r)) ((replicate n 0 ++ (m' ∷ [])) ++ s) ≡ Ordering.lt
unfolding bytes_compare
pads_lt zero m m' r s h = ground arith
pads_lt (suc n) m m' r s h = pads_lt n m m' r s h

-- Pads with a lower marker stand below any data that fits the same room.
pads_below :
    (room m : ℕ) (ys r s : Bytes)
    → IsBytes ys
    → m < 255 - room
    → bytes_compare (replicate room 0 ++ (m ∷ r)) (encoding room ys ++ s) ≡ Ordering.lt
unfolding bytes_compare
pads_below zero m [] r s hb h = ground arith
pads_below zero m (y ∷ ys) r s hb h = ground arith
pads_below (suc room) m [] r s hb h = pads_lt room m (254 - room) r s (omega arith)
pads_below (suc room) m (y ∷ ys) r s hb h = ground (arith, pads_below room m ys r s)

encoding_below :
    (room : ℕ) (xs ys r s : Bytes)
    → room ≤ 8
    → IsBytes ys
    → bytes_compare xs ys ≡ Ordering.lt
    → bytes_compare (encoding room xs ++ r) (encoding room ys ++ s) ≡ Ordering.lt
unfolding bytes_compare
encoding_below room [] [] r s hr hb h = cc
encoding_below room (x ∷ xs) [] r s hr hb h = cc
encoding_below zero [] (y ∷ ys) r s hr hb h = ground (arith, pads_below 7 247 ys r s)
encoding_below (suc room) [] (y ∷ ys) r s hr hb h = ground (
  arith,
  append_assoc (replicate room 0) ((254 - room) ∷ []) r,
  pads_below room (254 - room) ys r s,
)
encoding_below zero (x ∷ xs) (y ∷ ys) r s hr hb h = ground (arith, encoding_below 7 xs ys r s)
encoding_below (suc room) (x ∷ xs) (y ∷ ys) r s hr hb h =
    ground (arith, encoding_below room xs ys r s)

-- Byte slices that stand in strictly ascending order have encodings in strictly ascending order,
-- whatever bytes follow them.
pub encode_bytes_ascending :
    (xs ys r s : Bytes)
    → IsBytes ys
    → bytes_compare xs ys ≡ Ordering.lt
    → bytes_compare (encode_bytes [] xs ++ r) (encode_bytes [] ys ++ s) ≡ Ordering.lt
encode_bytes_ascending xs ys r s hb h =
    rw (encode_bytes-encoding [] xs, encode_bytes-encoding [] ys)
      (encoding_below 8 xs ys r s (omega arith) hb h)
