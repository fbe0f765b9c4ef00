-- ===== src/Common/Utf8/RoundTrip.antt =====
-- Decoding gives back what was encoded, and an encoding grows by at most a factor of three.
use white_toyota_tacoma.Common.{
  ℕ, zero, suc, min, ◌+◌, ◌-◌, ◌*◌, ◌/◌, ◌%◌, ◌≤◌, ◌<◌, ◌≡◌, refl, ap, ◌∙◌, ◌⊎◌, inl, inr, List, [],
  ◌∷◌, ◌++◌, arith, ltb, if◌then◌else◌, length, All, length-append, Bool-cases,
}
use white_toyota_tacoma.Common.Bytes.{Bytes}
use white_toyota_tacoma.Common.Utf8.{
  decode_two, decode_three, decode_four, decode_rune, encode_rune, runes_from, runes, encode,
}

-- A Unicode scalar value.
abbrev pub IsScalar : ℕ → Type 0
IsScalar r = (r < 0x110000) × ((r < 0xd800) ⊎ (0xe000 ≤ r))

runes_from-encode_ascii :
    (r : ℕ) (rest : Bytes) → r < 0x80 → runes_from 0 (encode_rune r ++ rest) ≡ r ∷ runes_from 0 rest
unfolding runes_from encode_rune
runes_from-encode_ascii r rest h = ground arith

runes_from-encode_two :
    (r : ℕ) (rest : Bytes)
    → 0x80 ≤ r
    → r < 0x800
    → runes_from 0 (encode_rune r ++ rest) ≡ r ∷ runes_from 0 rest
unfolding runes_from encode_rune
runes_from-encode_two r rest l h = ground arith

runes_from-encode_three :
    (r : ℕ) (rest : Bytes)
    → 0x800 ≤ r
    → r < 0x10000
    → IsScalar r
    → runes_from 0 (encode_rune r ++ rest) ≡ r ∷ runes_from 0 rest
unfolding runes_from encode_rune
runes_from-encode_three r rest l h s = ground arith

pub decode_rune_four :
    (a b c d : ℕ) (rest : Bytes)
    → a < 5
    → b < 64
    → c < 64
    → d < 64
    → (0 < a) ⊎ (16 ≤ b)
    → (a < 4) ⊎ (b < 16)
    → decode_rune (a + 0xf0) ((b + 0x80) ∷ (c + 0x80) ∷ (d + 0x80) ∷ rest)
      ≡ (a * 262144 + b * 4096 + c * 64 + d, 4)
unfolding decode_rune decode_four
decode_rune_four a b c d rest ha hb hc hd lo hi = ground arith

pub digits_four :
    (r : ℕ) → r / 262144 * 262144 + r / 4096 % 64 * 4096 + r / 64 % 64 * 64 + r % 64 ≡ r
digits_four r = omega arith

runes_from_four :
    (a b c d r : ℕ) (rest : Bytes)
    → decode_rune a (b ∷ c ∷ d ∷ rest) ≡ (r, 4)
    → runes_from 0 (a ∷ b ∷ c ∷ d ∷ rest) ≡ r ∷ runes_from 0 rest
unfolding runes_from
runes_from_four a b c d r rest e = rw e

runes_from-encode_four :
    (r : ℕ) (rest : Bytes)
    → 0x10000 ≤ r
    → IsScalar r
    → runes_from 0 (encode_rune r ++ rest) ≡ r ∷ runes_from 0 rest
unfolding encode_rune
runes_from-encode_four r rest l s =
    let e =
      decode_rune_four (r / 262144) (r / 4096 % 64) (r / 64 % 64) (r % 64) rest (omega arith)
        (omega arith) (omega arith) (omega arith) (omega arith) (omega arith) in
    let f =
      runes_from_four (r / 262144 + 0xf0) (r / 4096 % 64 + 0x80) (r / 64 % 64 + 0x80)
        (r % 64 + 0x80) r rest (rw (digits_four r) at e) in
    ground (arith, f)

pub runes_from-encode_rune :
    (r : ℕ) (rest : Bytes)
    → IsScalar r
    → runes_from 0 (encode_rune r ++ rest) ≡ r ∷ runes_from 0 rest
runes_from-encode_rune r rest s = elim (Bool-cases (ltb r 0x80)) [
  | inl h ↦ runes_from-encode_ascii r rest (ground arith)
  | inr h ↦ elim (Bool-cases (ltb r 0x800)) [
    | inl h2 ↦ runes_from-encode_two r rest (ground arith) (ground arith)
    | inr h2 ↦ elim (Bool-cases (ltb r 0x10000)) [
      | inl h3 ↦ runes_from-encode_three r rest (ground arith) (ground arith) s
      | inr h3 ↦ runes_from-encode_four r rest (ground arith) s
    ]
  ]
]

-- Decoding gives back every list of scalar values.
pub runes-encode : (rs : List ℕ) → All IsScalar rs → runes (encode rs) ≡ rs
unfolding runes encode
runes-encode [] h = unfold runes_from in refl
runes-encode (r ∷ rs) h =
    runes_from-encode_rune r (encode rs) h.0 ∙ ap (◌∷◌ r) (runes-encode rs h.1)

abbrev pub IsDecoded : ℕ × ℕ → Type 0
IsDecoded p =
    IsScalar p.0 × (1 ≤ p.1) × (p.1 ≤ 4) × ((p.1 ≡ 4) ⊎ (p.0 < 0x10000)) × ((p.1 ≡ 1) ⊎ (2 ≤ p.1))

decode_two-IsDecoded : (b : ℕ) (s : Bytes) → 0xc2 ≤ b → b < 0xe0 → IsDecoded (decode_two b s)
unfolding decode_two
decode_two-IsDecoded b [] l h = omega arith
decode_two-IsDecoded b (b1 ∷ s) l h = ground arith

decode_three-IsDecoded : (b : ℕ) (s : Bytes) → 0xe0 ≤ b → b < 0xf0 → IsDecoded (decode_three b s)
unfolding decode_three
decode_three-IsDecoded b [] l h = omega arith
decode_three-IsDecoded b (b1 ∷ []) l h = omega arith
decode_three-IsDecoded b (b1 ∷ b2 ∷ s) l h = ground arith

decode_four-IsDecoded : (b : ℕ) (s : Bytes) → 0xf0 ≤ b → b < 0xf5 → IsDecoded (decode_four b s)
unfolding decode_four
decode_four-IsDecoded b [] l h = omega arith
decode_four-IsDecoded b (b1 ∷ []) l h = omega arith
decode_four-IsDecoded b (b1 ∷ b2 ∷ []) l h = omega arith
decode_four-IsDecoded b (b1 ∷ b2 ∷ b3 ∷ s) l h = ground arith

pub decode_rune-IsDecoded : (b : ℕ) (s : Bytes) → IsDecoded (decode_rune b s)
unfolding decode_rune
decode_rune-IsDecoded b s =
    ground (arith, decode_two-IsDecoded b s, decode_three-IsDecoded b s, decode_four-IsDecoded b s)

runes_from-IsScalar : (k : ℕ) (s : Bytes) → All IsScalar (runes_from k s)
unfolding runes_from
runes_from-IsScalar k [] = tt
runes_from-IsScalar zero (b ∷ s) = ((decode_rune-IsDecoded b s).0, runes_from-IsScalar _ s)
runes_from-IsScalar (suc k) (b ∷ s) = runes_from-IsScalar k s

-- A Go string, whatever its bytes, is read as scalar values.
pub runes-IsScalar : (s : Bytes) → All IsScalar (runes s)
unfolding runes
runes-IsScalar s = runes_from-IsScalar 0 s

decode_rune-le-length : (b : ℕ) (s : Bytes) → (decode_rune b s).1 ≤ suc (length s)
unfolding decode_rune decode_two decode_three decode_four
decode_rune-le-length b [] = ground arith
decode_rune-le-length b (b1 ∷ []) = ground arith
decode_rune-le-length b (b1 ∷ b2 ∷ []) = ground arith
decode_rune-le-length b (b1 ∷ b2 ∷ b3 ∷ s) = ground arith

length-encode_rune : (r : ℕ) → length (encode_rune r) ≤ (if ltb r 0x10000 then 3 else 4)
unfolding encode_rune
length-encode_rune r = ground arith

length-encode_rune-decode :
    (b : ℕ) (s : Bytes) → length (encode_rune (decode_rune b s).0) ≤ 3 * (decode_rune b s).1
length-encode_rune-decode b s =
    let d = decode_rune-IsDecoded b s in
    elim d.3 [
      | inl four ↦ ground (arith, length-encode_rune (decode_rune b s).0)
      | inr small ↦ ground (arith, length-encode_rune (decode_rune b s).0)
    ]

length-encode-runes_from :
    (k : ℕ) (s : Bytes) → length (encode (runes_from k s)) + 3 * min k (length s) ≤ 3 * length s
unfolding runes_from encode
length-encode-runes_from k [] = omega arith
length-encode-runes_from zero (b ∷ s) =
    let w = (decode_rune b s).1 in
    omega (
      arith,
      length-append (encode_rune (decode_rune b s).0) (encode (runes_from (w - 1) s)),
      length-encode_rune-decode b s,
      (decode_rune-IsDecoded b s).1,
      decode_rune-le-length b s,
      length-encode-runes_from (w - 1) s,
    )
length-encode-runes_from (suc k) (b ∷ s) = omega (arith, length-encode-runes_from k s)

pub length-encode-runes : (s : Bytes) → length (encode (runes s)) ≤ 3 * length s
unfolding runes
length-encode-runes s = omega (arith, length-encode-runes_from 0 s)
