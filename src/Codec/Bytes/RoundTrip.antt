-- ===== src/Codec/Bytes/RoundTrip.antt =====
-- `decode_bytes` against the encoding of util/codec/bytes.go, both ways.
use client_go.Base.{
  ℕ, zero, suc, ◌+◌, ◌-◌, ◌%◌, ◌≤◌, ◌<◌, ◌≡◌, refl, sym, ap, ◌∙◌, true, false, leb, ◌==◌,
  if◌then◌else◌, Bool-cases, ◌⊎◌, inl, inr, [], ◌∷◌, ◌++◌, append_assoc, append-nil, Bytes, IsBytes,
  length, take, drop, replicate, get_or, arith, length-append, length-drop, length-replicate,
  take-append_eq, drop-append_eq, get_or-append_length, length-take_le, take-append-drop,
  drop-get_or,
}
use client_go.Codec.{ok}
use client_go.Codec.Bytes.{all_are, decode_loop, decode_bytes_in, decode_bytes, encode_bytes}
use client_go.Codec.Bytes.Spec.{encoding, encoding_full, encoding_last, encode_bytes-encoding}

all_are-replicate : (v n : ℕ) → all_are v (replicate n v) ≡ true
all_are-replicate v zero = refl
all_are-replicate v (suc n) = ground (arith, all_are-replicate v n)

all_are→replicate : (v : ℕ) (xs : Bytes) → all_are v xs ≡ true → xs ≡ replicate (length xs) v
all_are→replicate v [] h = refl
all_are→replicate v (x ∷ xs) h = ground (arith, all_are→replicate v xs)

-- One round on a group of eight with its marker.
decode_round :
    (f : ℕ) (g : Bytes) (m : ℕ) (more buf : Bytes) (pad : ℕ)
    → length g ≡ 8
    → pad ≤ 8
    → m ≡ 255 - pad
    → all_are 0 (drop (8 - pad) g) ≡ true
    → decode_loop (suc f) (g ++ (m ∷ more)) buf false ≡ (
        if pad == 0
        then decode_loop f more (buf ++ take (8 - pad) g) false
        else ok (more, buf ++ take (8 - pad) g))
unfolding decode_loop
decode_round f g m more buf pad hg hp hm z = ground (
  arith,
  take-append_eq 8 g (m ∷ more) (omega arith),
  drop-append_eq 9 (g ++ (m ∷ [])) more (omega (arith, length-append g (m ∷ []))),
  append_assoc g (m ∷ []) more,
  length-append g (m ∷ more),
  get_or-append_length g (m ∷ more) 0,
)

-- A group of some data bytes and the pads that fill it up.
decode_padded :
    (f : ℕ) (front : Bytes) (pad : ℕ) (more buf : Bytes)
    → length front + pad ≡ 8
    → decode_loop (suc f) (((front ++ replicate pad 0) ++ ((255 - pad) ∷ [])) ++ more) buf false
      ≡ (if pad == 0 then decode_loop f more (buf ++ front) false else ok (more, buf ++ front))
decode_padded f front pad more buf h =
    let real : 8 - pad ≡ length front = omega arith in
    let group : Bytes = front ++ replicate pad 0 in
    rw (append_assoc group) (
      decode_round f group (255 - pad) more buf pad
        (omega (arith, length-append front (replicate pad 0), length-replicate {A = ℕ} pad 0))
        (omega arith) refl
        (rw (drop-append_eq (8 - pad) front (replicate pad 0) real) (all_are-replicate 0 pad))
      ∙ rw (take-append_eq (8 - pad) front (replicate pad 0) real))

decode_full :
    (f : ℕ) (dat more buf : Bytes)
    → 8 ≤ length dat
    → decode_loop (suc f) (encoding 8 dat ++ more) buf false
      ≡ decode_loop f (encoding 8 (drop 8 dat) ++ more) (buf ++ take 8 dat) false
decode_full f dat more buf h =
    rw (encoding_full 8 dat h, append_assoc (take 8 dat ++ (0xff ∷ [])))
      (rw (append-nil (take 8 dat)) at (
        decode_padded f (take 8 dat) 0 (encoding 8 (drop 8 dat) ++ more) buf
          (omega (arith, length-take_le 8 dat h))))

decode_last :
    (f : ℕ) (dat more buf : Bytes)
    → length dat < 8
    → decode_loop (suc f) (encoding 8 dat ++ more) buf false ≡ ok (more, buf ++ dat)
decode_last f dat more buf h =
    rw (encoding_last 8 dat h)
      (decode_padded f dat (8 - length dat) more buf (omega arith) ∙ ground arith)

decode_loop-encoding :
    (f : ℕ) (dat more buf : Bytes)
    → length dat < f
    → decode_loop f (encoding 8 dat ++ more) buf false ≡ ok (more, buf ++ dat)
decode_loop-encoding zero dat more buf h = absurd (omega arith)
decode_loop-encoding (suc f) dat more buf h = elim (Bool-cases (leb 8 (length dat))) [
  | inl full ↦
      decode_full f dat more buf (ground arith)
      ∙ decode_loop-encoding f (drop 8 dat) more (buf ++ take 8 dat)
          (ground (arith, length-drop 8 dat))
      ∙ rw (append_assoc buf) (rw (take-append-drop 8 dat))
  | inr last ↦ decode_last f dat more buf (ground arith)
]

length-encoding : (room : ℕ) (dat : Bytes) → length dat < length (encoding room dat)
length-encoding zero [] = omega arith
length-encoding (suc room) [] =
    omega (arith, length-append (replicate (suc room) 0) ((254 - room) ∷ []))
length-encoding zero (x ∷ dat) = omega (arith, length-encoding 7 dat)
length-encoding (suc room) (x ∷ dat) = omega (arith, length-encoding room dat)

-- For every byte slice, `decode_bytes` reads back the data that `encode_bytes` appended to an
-- empty buffer, and returns whatever follows the encoding untouched.
pub decode_bytes-encode_bytes :
    (dat more : Bytes) → decode_bytes (encode_bytes [] dat ++ more) ≡ ok (more, dat)
unfolding decode_bytes decode_bytes_in
decode_bytes-encode_bytes dat more = ground (
  arith,
  encode_bytes-encoding [] dat,
  decode_loop-encoding (length (encoding 8 dat ++ more)) dat more []
      (omega (arith, length-append (encoding 8 dat) more, length-encoding 8 dat)),
)

-- What one round finds in an input that it accepts.
decode_shape : (b : Bytes) → 9 ≤ length b → b ≡ (take 8 b ++ (get_or b 8 0 ∷ [])) ++ drop 9 b
decode_shape b h =
    sym (take-append-drop 8 b)
    ∙ rw (drop-get_or 8 b 0 (omega arith))
        (sym (append_assoc (take 8 b) (get_or b 8 0 ∷ []) (drop 9 b)))

get_or-lt : (b : Bytes) (i : ℕ) → IsBytes b → get_or b i 0 < 256
get_or-lt [] i h = omega arith
get_or-lt (x ∷ b) zero h = h.0
get_or-lt (x ∷ b) (suc i) h = get_or-lt b i h.1

drop-IsBytes : (n : ℕ) (b : Bytes) → IsBytes b → IsBytes (drop n b)
drop-IsBytes zero b h = h
drop-IsBytes (suc n) [] h = tt
drop-IsBytes (suc n) (x ∷ b) h = drop-IsBytes n b h.1

-- The encoding of data that fills a group, or that ends inside one.
encoding_group :
    (g dat : Bytes) → length g ≡ 8 → encoding 8 (g ++ dat) ≡ (g ++ (0xff ∷ [])) ++ encoding 8 dat
encoding_group g dat h =
    encoding_full 8 (g ++ dat) (omega (arith, length-append g dat))
    ∙ rw (take-append_eq 8 g dat (omega arith), drop-append_eq 8 g dat (omega arith))

abbrev pad_of : Bytes → ℕ
pad_of b = (511 - get_or b 8 0) % 256

decode_round_inv :
    (f : ℕ) (b buf rest out : Bytes)
    → decode_loop (suc f) b buf false ≡ ok (rest, out)
    → (9 ≤ length b)
      × (pad_of b ≤ 8)
      × (((pad_of b ≡ 0)
            × (decode_loop f (drop 9 b) (buf ++ take 8 (take 8 b)) false ≡ ok (rest, out)))
          ⊎ ((all_are 0 (drop (8 - pad_of b) (take 8 b)) ≡ true)
              × (1 ≤ pad_of b)
              × (rest ≡ drop 9 b)
              × (out ≡ buf ++ take (8 - pad_of b) (take 8 b))))
unfolding decode_loop
decode_round_inv f b buf rest out h = ground arith

encoding_padded :
    (g : Bytes) (pad : ℕ)
    → length g ≡ 8
    → 1 ≤ pad
    → pad ≤ 8
    → all_are 0 (drop (8 - pad) g) ≡ true
    → encoding 8 (take (8 - pad) g) ≡ g ++ ((255 - pad) ∷ [])
encoding_padded g pad hg lo hi z =
    let front : length (take (8 - pad) g) ≡ 8 - pad = length-take_le (8 - pad) g (omega arith) in
    let back : length (drop (8 - pad) g) ≡ pad = omega (arith, length-drop (8 - pad) g) in
    let zeros : drop (8 - pad) g ≡ replicate pad 0 =
      rw back at (all_are→replicate 0 (drop (8 - pad) g) z) in
    let pads : 8 - (8 - pad) ≡ pad = omega arith in
    encoding_last 8 (take (8 - pad) g) (omega arith)
    ∙ rw (front, pads) (rw (← zeros) (rw (take-append-drop (8 - pad) g)))

take-take : (n : ℕ) (b : Bytes) → take n (take n b) ≡ take n b
take-take zero b = refl
take-take (suc n) [] = refl
take-take (suc n) (x ∷ b) = ap (◌∷◌ x) (take-take n b)

decode_loop_sound :
    (f : ℕ) (b buf rest out : Bytes)
    → IsBytes b
    → decode_loop f b buf false ≡ ok (rest, out)
    → (dat : Bytes) × (out ≡ buf ++ dat) × (b ≡ encoding 8 dat ++ rest)
unfolding decode_loop
decode_loop_sound zero b buf rest out hb h = cc
decode_loop_sound (suc f) b buf rest out hb h =
    let (len, small, cases) = decode_round_inv f b buf rest out h in
    let eight : length (take 8 b) ≡ 8 = length-take_le 8 b (omega arith) in
    let byte : get_or b 8 0 < 256 = get_or-lt b 8 hb in
    elim cases [
      | inl (full, e) ↦
          let (dat, eo, eb) =
            decode_loop_sound f (drop 9 b) (buf ++ take 8 (take 8 b)) rest out (drop-IsBytes 9 b hb)
              e in
          let marker : get_or b 8 0 ≡ 0xff = omega arith in
          (
            take 8 b ++ dat,
            eo ∙ rw (take-take 8 b) (append_assoc buf (take 8 b) dat),
            decode_shape b len
                ∙ rw (marker, eb, encoding_group (take 8 b) dat eight)
                    (sym (append_assoc (take 8 b ++ (0xff ∷ [])) (encoding 8 dat) rest)),
          )
      | inr (z, lo, er, eo) ↦
          let marker : get_or b 8 0 ≡ 255 - pad_of b = omega arith in
          (
            take (8 - pad_of b) (take 8 b),
            eo,
            decode_shape b len
                ∙ rw (encoding_padded (take 8 b) (pad_of b) eight lo small z, er)
                    (ap (λ m. (take 8 b ++ (m ∷ [])) ++ drop 9 b) marker),
          )
    ]

-- Whatever `decode_bytes` accepts is an encoding: an input of bytes that decodes to `dat`, with
-- `rest` left, is what `encode_bytes` makes of `dat`, followed by `rest`.
pub encode_bytes-decode_bytes :
    (b rest dat : Bytes)
    → IsBytes b
    → decode_bytes b ≡ ok (rest, dat)
    → b ≡ encode_bytes [] dat ++ rest
unfolding decode_bytes decode_bytes_in
encode_bytes-decode_bytes b rest dat hb h =
    let (dat', eo, eb) = decode_loop_sound (length b) b [] rest dat hb (ground arith) in
    eb ∙ rw (encode_bytes-encoding [] dat, eo)
