-- ===== src/Capture/Sanitize.antt =====
-- What `sanitizeStr` leaves of a string.
use white_toyota_tacoma.Common.{
  ℕ, ◌*◌, ◌≤◌, ◌≡◌, refl, inl, inr, false, List, [], ◌∷◌, arith, ltb, if◌then◌else◌, length, take,
  All, length-append, length-take, Bool-cases, min, All-append, ◌≢◌, ltb→lt, ltb→le, le→ltb,
}
use white_toyota_tacoma.Common.Bytes.{Bytes}
use white_toyota_tacoma.Common.Utf8.{runes, encode, encode_rune, map_runes}
use white_toyota_tacoma.Common.Utf8.RoundTrip.{
  IsScalar, runes-encode, runes-IsScalar, length-encode-runes,
}
use white_toyota_tacoma.Capture.{max_field, is_control, drop_control, sanitize_str}

abbrev pub IsPrintable : ℕ → Type 0
IsPrintable r = IsScalar r × (is_control r ≡ false)

map_runes-IsPrintable :
    (rs : List ℕ) → All IsScalar rs → All IsPrintable (map_runes drop_control rs)
unfolding map_runes
map_runes-IsPrintable [] h = tt
map_runes-IsPrintable (r ∷ rs) h = elim (Bool-cases (is_control r)) [
  | inl c ↦ rw c (map_runes-IsPrintable rs h.1)
  | inr c ↦ rw c ((h.0, c), map_runes-IsPrintable rs h.1)
]

All-map : {P Q : ℕ → Type 0} → ((r : ℕ) → P r → Q r) → (rs : List ℕ) → All P rs → All Q rs
All-map f [] h = tt
All-map f (r ∷ rs) h = (f r h.0, All-map f rs h.1)

pub sanitize_str-encode :
    (s : Bytes) → (rs : List ℕ) × (sanitize_str s ≡ encode rs) × All IsScalar rs
unfolding sanitize_str
sanitize_str-encode s =
    let t = if ltb max_field (length s) then take max_field s else s in
    let rs = map_runes drop_control (runes t) in
    (rs, refl, All-map (λ r h. h.0) rs (map_runes-IsPrintable (runes t) (runes-IsScalar t)))

-- Read as Go reads it, a sanitized string has no control character.
pub sanitize_str-IsPrintable : (s : Bytes) → All IsPrintable (runes (sanitize_str s))
unfolding sanitize_str
sanitize_str-IsPrintable s =
    let t = if ltb max_field (length s) then take max_field s else s in
    let p = map_runes-IsPrintable (runes t) (runes-IsScalar t) in
    rw (runes-encode (map_runes drop_control (runes t)) (All-map (λ r h. h.0) _ p)) p

abbrev pub IsCleanByte : ℕ → Type 0
IsCleanByte b = (32 ≤ b) × (b ≢ 127)

encode_rune-IsCleanByte : (r : ℕ) → is_control r ≡ false → All IsCleanByte (encode_rune r)
unfolding encode_rune
encode_rune-IsCleanByte r h = ground arith

encode-IsCleanByte : (rs : List ℕ) → All IsPrintable rs → All IsCleanByte (encode rs)
unfolding encode
encode-IsCleanByte [] h = tt
encode-IsCleanByte (r ∷ rs) h =
    All-append IsCleanByte (encode_rune r) (encode rs) (encode_rune-IsCleanByte r h.0.1)
      (encode-IsCleanByte rs h.1)

-- Byte by byte, what `sanitizeStr` returns has no C0 control and no DEL: no CR, no LF, no NUL, no ESC.
pub sanitize_str-IsCleanByte : (s : Bytes) → All IsCleanByte (sanitize_str s)
unfolding sanitize_str
sanitize_str-IsCleanByte s =
    let t = if ltb max_field (length s) then take max_field s else s in
    encode-IsCleanByte (map_runes drop_control (runes t))
      (map_runes-IsPrintable (runes t) (runes-IsScalar t))

length-encode-map_runes :
    (rs : List ℕ) → length (encode (map_runes drop_control rs)) ≤ length (encode rs)
unfolding encode map_runes
length-encode-map_runes [] = omega arith
length-encode-map_runes (r ∷ rs) = elim (Bool-cases (is_control r)) [
  | inl c ↦
      rw c (omega (arith, length-append (encode_rune r) (encode rs), length-encode-map_runes rs))
  | inr c ↦ rw c (
      omega (
        arith,
        length-append (encode_rune r) (encode rs),
        length-append (encode_rune r) (encode (map_runes drop_control rs)),
        length-encode-map_runes rs,
      ))
]

-- What `sanitizeStr` returns has at most three times the bytes that it keeps of its input, which
-- are all of them, or 4096.
pub length-sanitize_str : (s : Bytes) → length (sanitize_str s) ≤ 3 * min max_field (length s)
unfolding sanitize_str
length-sanitize_str s = elim (Bool-cases (ltb max_field (length s))) [
  | inl long ↦ rw long (
      omega (
        arith,
        ltb→lt max_field (length s) long,
        length-encode-map_runes (runes (take max_field s)),
        length-encode-runes (take max_field s),
        length-take max_field s,
      ))
  | inr short ↦ rw short (
      omega (
        arith,
        ltb→le max_field (length s) short,
        length-encode-map_runes (runes s),
        length-encode-runes s,
      ))
]

map_runes-printable : (rs : List ℕ) → All IsPrintable rs → map_runes drop_control rs ≡ rs
unfolding map_runes
map_runes-printable [] h = refl
map_runes-printable (r ∷ rs) h = rw (h.0.1, map_runes-printable rs h.1)

-- Printable UTF-8 of at most 4096 bytes is logged as it is.
pub sanitize_str-printable :
    (rs : List ℕ)
    → All IsPrintable rs
    → length (encode rs) ≤ max_field
    → sanitize_str (encode rs) ≡ encode rs
unfolding sanitize_str
sanitize_str-printable rs h l =
    rw (le→ltb max_field (length (encode rs)) l)
      (rw (runes-encode rs (All-map (λ r p. p.0) rs h), map_runes-printable rs h))
