-- ===== src/Codec/Bytes/Spec.antt =====
-- The encoding of util/codec/bytes.go byte by byte, and its equality with the loop over groups.
use client_go.Base.{
  ℕ, zero, suc, ◌+◌, ◌-◌, ◌/◌, ◌≤◌, ◌<◌, ◌≡◌, refl, sym, ap, ◌∙◌, if◌then◌else◌, leb, Bool-cases,
  inl, inr, [], ◌∷◌, ◌++◌, append_assoc, append-nil, Bytes, length, take, drop, replicate,
  length-drop, arith,
}
use client_go.Codec.Bytes.{encode_group, encode_loop, encode_bytes}

-- `room` places are left in the group. A full group is closed by 255 before the next byte.
abbrev pub encoding : ℕ → Bytes → Bytes
encoding zero [] = 0xff ∷ (replicate 8 0 ++ (247 ∷ []))
encoding (suc room) [] = replicate (suc room) 0 ++ ((254 - room) ∷ [])
encoding zero (x ∷ xs) = 0xff ∷ (x ∷ encoding 7 xs)
encoding (suc room) (x ∷ xs) = x ∷ encoding room xs

pub encoding_full :
    (room : ℕ) (xs : Bytes)
    → room ≤ length xs
    → encoding room xs ≡ (take room xs ++ (0xff ∷ [])) ++ encoding 8 (drop room xs)
encoding_full zero [] h = refl
encoding_full zero (x ∷ xs) h = refl
encoding_full (suc room) [] h = absurd (omega arith)
encoding_full (suc room) (x ∷ xs) h = ap (◌∷◌ x) (encoding_full room xs (omega arith))

pub encoding_last :
    (room : ℕ) (xs : Bytes)
    → length xs < room
    → encoding room xs ≡ (xs ++ replicate (room - length xs) 0) ++ ((255 - (room - length xs)) ∷ [])
encoding_last zero xs h = absurd (omega arith)
encoding_last (suc room) [] h = ground arith
encoding_last (suc room) (x ∷ xs) h = ground (arith, encoding_last room xs)

-- One round of the loop.
encode_group-encoding :
    (rest : Bytes)
    → encoding 8 rest
      ≡ encode_group rest ++ (if leb 8 (length rest) then encoding 8 (drop 8 rest) else [])
unfolding encode_group
encode_group-encoding rest =
    ground (arith, encoding_full 8 rest, encoding_last 8 rest, append-nil (encode_group rest))

encode_loop-encoding :
    (rounds : ℕ) (result rest : Bytes)
    → rounds ≡ length rest / 8 + 1
    → encode_loop rounds result rest ≡ result ++ encoding 8 rest
unfolding encode_loop
encode_loop-encoding zero result rest h = absurd (omega arith)
encode_loop-encoding (suc rounds) result rest h = elim (Bool-cases (leb 8 (length rest))) [
  | inl full ↦
      encode_loop-encoding rounds (result ++ encode_group rest) (drop 8 rest)
        (ground (arith, length-drop 8 rest))
      ∙ append_assoc result (encode_group rest) (encoding 8 (drop 8 rest))
      ∙ sym (ap (◌++◌ result) (encode_group-encoding rest ∙ rw full))
  | inr last ↦
      let none_left : rounds ≡ 0 = ground arith in
      rw none_left (
        sym (
          ap (◌++◌ result) (encode_group-encoding rest ∙ rw last (append-nil (encode_group rest)))))
]

-- `encode_bytes` keeps what is in the buffer and appends the encoding.
pub encode_bytes-encoding : (b dat : Bytes) → encode_bytes b dat ≡ b ++ encoding 8 dat
unfolding encode_bytes
encode_bytes-encoding b dat = encode_loop-encoding (length dat / 8 + 1) b dat refl
