-- ===== src/Common/Quote/Graphic.antt =====
-- A quoted string has no control character of ASCII but DEL, whatever stands in it.
use white_toyota_tacoma.Common.{
  ℕ, zero, suc, ◌-◌, ◌≤◌, ◌<◌, inl, inr, [], ◌∷◌, arith, ltb, take, All, All-append, Bool-cases,
}
use white_toyota_tacoma.Common.Bytes.{Bytes}
use white_toyota_tacoma.Common.Utf8.{decode_rune, decode_two, decode_three, decode_four, segments}
use white_toyota_tacoma.Common.Quote.{escape_ascii, escape_segment, escape_all, json_string}

abbrev pub IsGraphic : ℕ → Type 0
IsGraphic b = 32 ≤ b

decode_rune_raw : (b : ℕ) (s : Bytes) → 0x80 ≤ b → All IsGraphic (take (decode_rune b s).1 (b ∷ s))
unfolding decode_rune decode_two decode_three decode_four
decode_rune_raw b [] h = ground arith
decode_rune_raw b (b1 ∷ []) h = ground arith
decode_rune_raw b (b1 ∷ b2 ∷ []) h = ground arith
decode_rune_raw b (b1 ∷ b2 ∷ b3 ∷ s) h = ground arith

escape_ascii-IsGraphic : (r : ℕ) → All IsGraphic (escape_ascii r)
unfolding escape_ascii
escape_ascii-IsGraphic r = ground arith

decode_rune_ascii : (b : ℕ) (s : Bytes) → b < 0x80 → (decode_rune b s).0 < 0x80
unfolding decode_rune
decode_rune_ascii b s h = ground arith

escape_segment-IsGraphic :
    (b : ℕ) (s : Bytes)
    → All IsGraphic (escape_segment (decode_rune b s).0 (take (decode_rune b s).1 (b ∷ s)))
unfolding escape_segment
escape_segment-IsGraphic b s =
    let r = (decode_rune b s).0 in
    elim (Bool-cases (ltb r 0x80)) [
      | inl low ↦ rw low (escape_ascii-IsGraphic r)
      | inr high ↦
          rw high (ground (arith, decode_rune_raw b s (ground (arith, decode_rune_ascii b s))))
    ]

escape_all-IsGraphic : (k : ℕ) (s : Bytes) → All IsGraphic (escape_all (segments k s))
unfolding segments escape_all
escape_all-IsGraphic k [] = tt
escape_all-IsGraphic zero (b ∷ s) =
    All-append IsGraphic _ _ (escape_segment-IsGraphic b s)
      (escape_all-IsGraphic ((decode_rune b s).1 - 1) s)
escape_all-IsGraphic (suc k) (b ∷ s) = escape_all-IsGraphic k s

pub json_string-IsGraphic : (s : Bytes) → All IsGraphic (json_string s)
unfolding json_string
json_string-IsGraphic s =
    (omega arith, All-append IsGraphic _ (b'"' ∷ []) (escape_all-IsGraphic 0 s) (omega arith))
