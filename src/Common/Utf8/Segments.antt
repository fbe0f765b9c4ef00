-- ===== src/Common/Utf8/Segments.antt =====
-- `range` over what was encoded visits each rune with its own bytes.
use white_toyota_tacoma.Common.{
  ℕ, ◌+◌, ◌/◌, ◌%◌, ◌≤◌, ◌<◌, ◌≡◌, inl, inr, [], ◌∷◌, ◌++◌, arith, ltb, Bool-cases,
}
use white_toyota_tacoma.Common.Bytes.{Bytes}
use white_toyota_tacoma.Common.Utf8.{segments, encode_rune, decode_rune}
use white_toyota_tacoma.Common.Utf8.RoundTrip.{IsScalar, decode_rune_four, digits_four}

segments-encode_ascii :
    (r : ℕ) (rest : Bytes)
    → r < 0x80
    → segments 0 (encode_rune r ++ rest) ≡ (r, encode_rune r) ∷ segments 0 rest
unfolding segments encode_rune
segments-encode_ascii r rest h = ground arith

segments-encode_two :
    (r : ℕ) (rest : Bytes)
    → 0x80 ≤ r
    → r < 0x800
    → segments 0 (encode_rune r ++ rest) ≡ (r, encode_rune r) ∷ segments 0 rest
unfolding segments encode_rune
segments-encode_two r rest l h = ground arith

segments-encode_three :
    (r : ℕ) (rest : Bytes)
    → 0x800 ≤ r
    → r < 0x10000
    → IsScalar r
    → segments 0 (encode_rune r ++ rest) ≡ (r, encode_rune r) ∷ segments 0 rest
unfolding segments encode_rune
segments-encode_three r rest l h s = ground arith

segments_four :
    (a b c d r : ℕ) (rest : Bytes)
    → decode_rune a (b ∷ c ∷ d ∷ rest) ≡ (r, 4)
    → segments 0 (a ∷ b ∷ c ∷ d ∷ rest) ≡ (r, a ∷ b ∷ c ∷ d ∷ []) ∷ segments 0 rest
unfolding segments
segments_four a b c d r rest e = rw e

segments-encode_four :
    (r : ℕ) (rest : Bytes)
    → 0x10000 ≤ r
    → IsScalar r
    → segments 0 (encode_rune r ++ rest) ≡ (r, encode_rune r) ∷ segments 0 rest
unfolding encode_rune
segments-encode_four r rest l s =
    let e =
      decode_rune_four (r / 262144) (r / 4096 % 64) (r / 64 % 64) (r % 64) rest (omega arith)
        (omega arith) (omega arith) (omega arith) (omega arith) (omega arith) in
    let f =
      segments_four (r / 262144 + 0xf0) (r / 4096 % 64 + 0x80) (r / 64 % 64 + 0x80) (r % 64 + 0x80)
        r rest (rw (digits_four r) at e) in
    ground (arith, f)

-- The first rune that is ranged over is the one encoded first, with all its bytes.
pub segments-encode_rune :
    (r : ℕ) (rest : Bytes)
    → IsScalar r
    → segments 0 (encode_rune r ++ rest) ≡ (r, encode_rune r) ∷ segments 0 rest
segments-encode_rune r rest s = elim (Bool-cases (ltb r 0x80)) [
  | inl h ↦ segments-encode_ascii r rest (ground arith)
  | inr h ↦ elim (Bool-cases (ltb r 0x800)) [
    | inl h2 ↦ segments-encode_two r rest (ground arith) (ground arith)
    | inr h2 ↦ elim (Bool-cases (ltb r 0x10000)) [
      | inl h3 ↦ segments-encode_three r rest (ground arith) (ground arith) s
      | inr h3 ↦ segments-encode_four r rest (ground arith) s
    ]
  ]
]
