-- ===== src/Common/Quote/Reader.antt =====
-- A reader of JSON strings, as one who reads the log has it, and that it gives back what
-- `encoding/json` writes.
use white_toyota_tacoma.Common.{
  ℕ, ◌+◌, ◌-◌, ◌*◌, ◌/◌, ◌%◌, ◌≤◌, ◌<◌, ◌≡◌, ◌∙◌, refl, ap, sym, subst, inl, inr, Option, none,
  some, List, [], ◌∷◌, ◌++◌, true, false, ◌||◌, arith, ltb, ◌==◌, if◌then◌else◌, length, All,
  Bool-cases, append_assoc,
}
use white_toyota_tacoma.Common.Bytes.{Bytes}
use white_toyota_tacoma.Common.Utf8.{segments, encode_rune, encode}
use white_toyota_tacoma.Common.Utf8.RoundTrip.{IsScalar}
use white_toyota_tacoma.Common.Utf8.Segments.{segments-encode_rune}
use white_toyota_tacoma.Common.Quote.{
  hex_digit, escape_unit, escape_ascii, escape_segment, escape_all, json_string,
}

-- Within a string: at a character, behind a backslash, or behind `\u` with so many digits to come.
data Mode : Type 0 where
  plain escaped : Mode
  unicode : ℕ → ℕ → Mode

data Step : Type 0 where
  closed : Step
  emits : Bytes → Mode → Step

unescaped : ℕ → ℕ
unescaped c = if c == b'n' then 10 else if c == b'r' then 13 else if c == b't' then 9 else c

hex_value : ℕ → ℕ
hex_value c = if ltb c 58 then c - 48 else c - 87

step : Mode → ℕ → Step
unfolding unescaped hex_value
step plain c =
    if c == b'"' then closed else if c == b'\\' then emits [] escaped else emits (c ∷ []) plain
step escaped c = if c == b'u' then emits [] (unicode 4 0) else emits (unescaped c ∷ []) plain
step (unicode n v) c =
    if n == 1
    then emits (encode_rune (v * 16 + hex_value c)) plain
    else emits [] (unicode (n - 1) (v * 16 + hex_value c))

abbrev in_front : Bytes → Option (Bytes × Bytes) → Option (Bytes × Bytes)
in_front s none = none
in_front s (some (t, rest)) = some (s ++ t, rest)

read_chars : Mode → Bytes → Option (Bytes × Bytes)
unfolding step
read_chars mode [] = none
read_chars mode (c ∷ s) = elim (step mode c) [
  | closed ↦ some ([], s)
  | emits t next ↦ in_front t (read_chars next s)
]

-- The string, and what follows its closing quote.
pub read_string : Bytes → Option (Bytes × Bytes)
read_string [] = none
read_string (c ∷ s) = if c == b'"' then read_chars plain s else none

in_front-in_front :
    (s t : Bytes) (r : Option (Bytes × Bytes)) → in_front s (in_front t r) ≡ in_front (s ++ t) r
in_front-in_front s t none = refl
in_front-in_front s t (some (u, rest)) = ap (λ x. some (x, rest)) (sym (append_assoc s t u))

hex_value-hex_digit : (d : ℕ) → d < 16 → hex_value (hex_digit d) ≡ d
unfolding hex_value
hex_value-hex_digit d h = ground arith

hex_digits :
    (r : ℕ)
    → r < 0x80
    → (0 + hex_value (hex_digit (r / 16))) * 16 + hex_value (hex_digit (r % 16)) ≡ r
hex_digits r h =
    rw (hex_value-hex_digit (r / 16) (omega arith), hex_value-hex_digit (r % 16) (omega arith))
      (omega arith)

five_in_front :
    (s : Bytes) (r : Option (Bytes × Bytes))
    → in_front [] (in_front [] (in_front [] (in_front [] (in_front [] (in_front s r)))))
      ≡ in_front s r
five_in_front s none = refl
five_in_front s (some u) = refl

encode_rune-ascii : (r : ℕ) → r < 0x80 → encode_rune r ≡ r ∷ []
unfolding encode_rune
encode_rune-ascii r h = ground arith

read-escape_unit :
    (r : ℕ) (s : Bytes)
    → r < 0x80
    → read_chars plain (escape_unit r ++ s) ≡ in_front (r ∷ []) (read_chars plain s)
unfolding read_chars step escape_unit
read-escape_unit r s h =
    five_in_front _ (read_chars plain s)
    ∙ ap (λ t. in_front t (read_chars plain s))
        (ap encode_rune (hex_digits r h) ∙ encode_rune-ascii r h)

read-escape_ascii :
    (r : ℕ) (s : Bytes)
    → r < 0x80
    → read_chars plain (escape_ascii r ++ s) ≡ in_front (r ∷ []) (read_chars plain s)
unfolding read_chars step escape_ascii unescaped
read-escape_ascii r s h = ground (arith, read-escape_unit r s h)

in_front_nil : (r : Option (Bytes × Bytes)) → r ≡ in_front [] r
in_front_nil none = refl
in_front_nil (some u) = refl

step_high : (b : ℕ) → 0x80 ≤ b → step plain b ≡ emits (b ∷ []) plain
unfolding step
step_high b h = ground arith

-- Bytes beyond ASCII stand for themselves.
read-raw :
    (raw s : Bytes)
    → All (λ b. 0x80 ≤ b) raw
    → read_chars plain (raw ++ s) ≡ in_front raw (read_chars plain s)
unfolding read_chars
read-raw [] s h = in_front_nil (read_chars plain s)
read-raw (b ∷ raw) s h =
    rw (read_chars, step_high b h.0)
      (rw (read-raw raw s h.1) (in_front-in_front (b ∷ []) raw (read_chars plain s)))

encode_rune_high :
    (r : ℕ) → 0x80 ≤ r → All (λ b. 0x80 ≤ b) (encode_rune r) × (2 ≤ length (encode_rune r))
unfolding encode_rune
encode_rune_high r h = ground arith

read_low :
    (r : ℕ) (s : Bytes)
    → r < 0x80
    → read_chars plain (escape_segment r (encode_rune r) ++ s)
      ≡ in_front (encode_rune r) (read_chars plain s)
unfolding escape_segment
read_low r s h =
    let low : ltb r 0x80 ≡ true = ground arith in
    rw (low, encode_rune-ascii r h) (read-escape_ascii r s h)

-- The two line separators, which are escaped for JavaScript.
read_separator :
    (r : ℕ) (s : Bytes)
    → (r == 0x2028 || r == 0x2029) ≡ true
    → read_chars plain (escape_segment r (encode_rune r) ++ s)
      ≡ in_front (encode_rune r) (read_chars plain s)
unfolding read_chars step escape_segment encode_rune
read_separator r s h = elim (Bool-cases (r == 0x2028)) [
  | inl e ↦
      let q : r ≡ 0x2028 = ground arith in
      subst
        (λ x.
          read_chars plain (escape_segment x (encode_rune x) ++ s)
          ≡ in_front (encode_rune x) (read_chars plain s))
        (sym q) (five_in_front (encode_rune 0x2028) (read_chars plain s))
  | inr e ↦
      let q : r ≡ 0x2029 = ground arith in
      subst
        (λ x.
          read_chars plain (escape_segment x (encode_rune x) ++ s)
          ≡ in_front (encode_rune x) (read_chars plain s))
        (sym q) (five_in_front (encode_rune 0x2029) (read_chars plain s))
]

escape_segment_raw :
    (r : ℕ) (raw : Bytes)
    → 0x80 ≤ r
    → 2 ≤ length raw
    → (r == 0x2028 || r == 0x2029) ≡ false
    → escape_segment r raw ≡ raw
unfolding escape_segment
escape_segment_raw r raw h l n = ground arith

read-escape_segment :
    (r : ℕ) (s : Bytes)
    → read_chars plain (escape_segment r (encode_rune r) ++ s)
      ≡ in_front (encode_rune r) (read_chars plain s)
read-escape_segment r s = elim (Bool-cases (ltb r 0x80)) [
  | inl low ↦ read_low r s (ground arith)
  | inr high ↦ elim (Bool-cases (r == 0x2028 || r == 0x2029)) [
    | inl e ↦ read_separator r s e
    | inr e ↦
        let (raw, l) = encode_rune_high r (ground arith) in
        rw (escape_segment_raw r (encode_rune r) (ground arith) l e)
          (read-raw (encode_rune r) s raw)
  ]
]

read-escape_cons :
    (r : ℕ) (raw : Bytes) (more : List (ℕ × Bytes)) (rest : Bytes)
    → read_chars plain (escape_all ((r, raw) ∷ more) ++ b'"' ∷ rest)
      ≡ read_chars plain (escape_segment r raw ++ (escape_all more ++ b'"' ∷ rest))
unfolding escape_all
read-escape_cons r raw more rest =
    ap (read_chars plain) (append_assoc (escape_segment r raw) (escape_all more) (b'"' ∷ rest))

read-escape_all :
    (rs : List ℕ) (rest : Bytes)
    → All IsScalar rs
    → read_chars plain (escape_all (segments 0 (encode rs)) ++ b'"' ∷ rest) ≡ some (encode rs, rest)
unfolding encode
read-escape_all [] rest h = unfold read_chars segments escape_all step in refl
read-escape_all (r ∷ rs) rest h = rw (segments-encode_rune r (encode rs) h.0) (
    read-escape_cons r (encode_rune r) (segments 0 (encode rs)) rest
    ∙ read-escape_segment r (escape_all (segments 0 (encode rs)) ++ b'"' ∷ rest)
    ∙ ap (in_front (encode_rune r)) (read-escape_all rs rest h.1))

-- A reader gets back a string of UTF-8, and the quotes within it do not end it early.
pub read_string-json_string :
    (rs : List ℕ) (rest : Bytes)
    → All IsScalar rs
    → read_string (json_string (encode rs) ++ rest) ≡ some (encode rs, rest)
unfolding read_string json_string
read_string-json_string rs rest h = rw append_assoc (read-escape_all rs rest h)
