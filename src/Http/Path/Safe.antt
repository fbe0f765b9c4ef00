-- ===== src/Http/Path/Safe.antt =====
-- What `sanitizePath` leaves of a path.
use white_toyota_tacoma.Common.{
  ℕ, ◌∙◌, ◌≤◌, ◌≡◌, refl, inl, inr, true, List, [], ◌∷◌, ltb, if◌then◌else◌, length, take, All,
  arith, Bool-cases, le→ltb,
}
use white_toyota_tacoma.Common.Bytes.{Bytes}
use white_toyota_tacoma.Common.Utf8.{
  runes, runes_from, encode, encode_rune, map_runes, string_map, decode_rune,
}
use white_toyota_tacoma.Http.Path.{max_path, is_plain, plain_or_underscore, sanitize_path}

abbrev pub IsPlain : ℕ → Type 0
IsPlain b = is_plain b ≡ true

-- A rune is written as one plain byte.
one_plain : ℕ → ℕ
one_plain r = if is_plain r then r else b'_'

plain_bytes : List ℕ → Bytes
plain_bytes [] = []
plain_bytes (r ∷ rs) = one_plain r ∷ plain_bytes rs

encode_rune-plain : (r : ℕ) → is_plain r ≡ true → encode_rune r ≡ r ∷ []
unfolding encode_rune
encode_rune-plain r h = ground arith

encode-map_runes : (rs : List ℕ) → encode (map_runes plain_or_underscore rs) ≡ plain_bytes rs
unfolding encode map_runes plain_bytes one_plain
encode-map_runes [] = refl
encode-map_runes (r ∷ rs) = elim (Bool-cases (is_plain r)) [
  | inl p ↦ rw p (rw (encode_rune-plain r p, encode-map_runes rs))
  | inr p ↦ rw p (rw (encode-map_runes rs))
]

abbrev cut : Bytes → Bytes
cut s = if ltb max_path (length s) then take max_path s else s

decode_rune-plain : (b : ℕ) (s : Bytes) → is_plain b ≡ true → decode_rune b s ≡ (b, 1)
unfolding decode_rune
decode_rune-plain b s h = let low : ltb b 0x80 ≡ true = ground arith in rw low

plain_bytes-plain : (s : Bytes) → All IsPlain s → plain_bytes (runes s) ≡ s
unfolding plain_bytes one_plain runes runes_from
plain_bytes-plain [] h = refl
plain_bytes-plain (b ∷ s) h = rw (decode_rune-plain b s h.0) (rw (h.0, plain_bytes-plain s h.1))

-- A path of such characters, and of no more than 512, is left as it is.
pub sanitize_path-plain : (s : Bytes) → All IsPlain s → length s ≤ max_path → sanitize_path s ≡ s
unfolding sanitize_path string_map
sanitize_path-plain s h l =
    rw (le→ltb max_path (length s) l) (encode-map_runes (runes s) ∙ plain_bytes-plain s h)
