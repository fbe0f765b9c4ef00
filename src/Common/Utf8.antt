-- ===== src/Common/Utf8.antt =====
-- UTF-8 as Go reads and writes it: `range` over a string, `utf8.AppendRune`, `strings.Map`,
-- `strings.Fields`, `strings.ToUpper` and `strings.ToLower`. The case tables of Unicode beyond
-- ASCII are a parameter.
pub mod RoundTrip
pub mod Segments
use white_toyota_tacoma.Common.{
  ℕ, zero, suc, ◌+◌, ◌-◌, ◌*◌, ◌/◌, ◌%◌, ◌<◌, Bool, true, false, ◌&&◌, ◌||◌, Option, none, some,
  List, [], ◌∷◌, ◌++◌, map, ltb, leb, ◌==◌, if◌then◌else◌, take,
}
use white_toyota_tacoma.Common.Bytes.{Bytes}

-- `utf8.RuneError`
abbrev pub rune_error : ℕ
rune_error = 0xfffd

abbrev pub is_surrogate : ℕ → Bool
is_surrogate r = leb 0xd800 r && ltb r 0xe000

abbrev within : ℕ → ℕ → ℕ → Bool
within lo hi b = leb lo b && leb b hi

abbrev bad : ℕ × ℕ
bad = (rune_error, 1)

-- The second byte is checked against the range that the first one allows.
unfoldable pub decode_two : ℕ → Bytes → ℕ × ℕ
decode_two b0 (b1 ∷ _) = if within 0x80 0xbf b1 then ((b0 - 0xc0) * 64 + (b1 - 0x80), 2) else bad
decode_two b0 [] = bad

abbrev low3 : ℕ → ℕ
low3 b0 = if b0 == 0xe0 then 0xa0 else 0x80

abbrev high3 : ℕ → ℕ
high3 b0 = if b0 == 0xed then 0x9f else 0xbf

unfoldable pub decode_three : ℕ → Bytes → ℕ × ℕ
decode_three b0 (b1 ∷ b2 ∷ _) =
    if within (low3 b0) (high3 b0) b1 && within 0x80 0xbf b2
    then ((b0 - 0xe0) * 4096 + (b1 - 0x80) * 64 + (b2 - 0x80), 3)
    else bad
decode_three b0 _ = bad

abbrev low4 : ℕ → ℕ
low4 b0 = if b0 == 0xf0 then 0x90 else 0x80

abbrev high4 : ℕ → ℕ
high4 b0 = if b0 == 0xf4 then 0x8f else 0xbf

unfoldable pub decode_four : ℕ → Bytes → ℕ × ℕ
decode_four b0 (b1 ∷ b2 ∷ b3 ∷ _) =
    if within (low4 b0) (high4 b0) b1 && (within 0x80 0xbf b2 && within 0x80 0xbf b3)
    then ((b0 - 0xf0) * 262144 + (b1 - 0x80) * 4096 + (b2 - 0x80) * 64 + (b3 - 0x80), 4)
    else bad
decode_four b0 _ = bad

-- `utf8.DecodeRune`: the rune and its width, (`RuneError`, 1) where the bytes are not UTF-8.
unfoldable pub decode_rune : ℕ → Bytes → ℕ × ℕ
decode_rune b0 s =
    if ltb b0 0x80
    then (b0, 1)
    else if ltb b0 0xc2
    then bad
    else if ltb b0 0xe0
    then decode_two b0 s
    else if ltb b0 0xf0
    then decode_three b0 s
    else if ltb b0 0xf5
    then decode_four b0 s
    else bad

-- `utf8.AppendRune`
unfoldable pub encode_rune : ℕ → Bytes
encode_rune r =
    if ltb r 0x80
    then r ∷ []
    else if ltb r 0x800
    then (r / 64 + 0xc0) ∷ (r % 64 + 0x80) ∷ []
    else if is_surrogate r || ltb 0x10ffff r
    then 0xef ∷ 0xbf ∷ 0xbd ∷ []
    else if ltb r 0x10000
    then (r / 4096 + 0xe0) ∷ (r / 64 % 64 + 0x80) ∷ (r % 64 + 0x80) ∷ []
    else (r / 262144 + 0xf0) ∷ (r / 4096 % 64 + 0x80) ∷ (r / 64 % 64 + 0x80) ∷ (r % 64 + 0x80) ∷ []

-- `for _, r := range s`: each rune with its bytes. The number is how many bytes of the rune
-- before are still to be passed over.
unfoldable pub segments : ℕ → Bytes → List (ℕ × Bytes)
unfolding decode_rune decode_two decode_three decode_four
segments skip [] = []
segments zero (b ∷ s) = let (r, w) = decode_rune b s in (r, take w (b ∷ s)) ∷ segments (w - 1) s
segments (suc k) (b ∷ s) = segments k s

unfoldable pub runes_from : ℕ → Bytes → List ℕ
unfolding decode_rune decode_two decode_three decode_four
runes_from skip [] = []
runes_from zero (b ∷ s) = let (r, w) = decode_rune b s in r ∷ runes_from (w - 1) s
runes_from (suc k) (b ∷ s) = runes_from k s

unfoldable pub runes : Bytes → List ℕ
unfolding runes_from
runes = runes_from 0

unfoldable pub encode : List ℕ → Bytes
unfolding encode_rune
encode [] = []
encode (r ∷ rs) = encode_rune r ++ encode rs

abbrev pub or_drop : Option ℕ → List ℕ → List ℕ
or_drop none rs = rs
or_drop (some r) rs = r ∷ rs

unfoldable pub map_runes : (ℕ → Option ℕ) → List ℕ → List ℕ
map_runes f [] = []
map_runes f (r ∷ rs) = or_drop (f r) (map_runes f rs)

-- `strings.Map`; `none` is a negative result, which drops the rune.
unfoldable pub string_map : (ℕ → Option ℕ) → Bytes → Bytes
unfolding map_runes encode runes
string_map f s = encode (map_runes f (runes s))

-- `unicode.ToUpper` and `unicode.ToLower` beyond ASCII.
pub record CaseTable : Type 0 where
  pub upper : ℕ → ℕ
  pub lower : ℕ → ℕ

abbrev upper_rune : CaseTable → ℕ → ℕ
upper_rune t r = if ltb r 0x80 then (if within b'a' b'z' r then r - 32 else r) else t.upper r

abbrev lower_rune : CaseTable → ℕ → ℕ
lower_rune t r = if ltb r 0x80 then (if within b'A' b'Z' r then r + 32 else r) else t.lower r

unfoldable pub to_upper : CaseTable → Bytes → Bytes
unfolding string_map
to_upper t = string_map (λ r. some (upper_rune t r))

unfoldable pub to_lower : CaseTable → Bytes → Bytes
unfolding string_map
to_lower t = string_map (λ r. some (lower_rune t r))

-- `unicode.IsSpace`
unfoldable pub is_space : ℕ → Bool
is_space r =
    within 9 13 r
    || (r == 32
        || (r == 0x85
            || (r == 0xa0
                || (r == 0x1680
                    || (within 0x2000 0x200a r
                        || (r == 0x2028
                            || (r == 0x2029 || (r == 0x202f || (r == 0x205f || r == 0x3000)))))))))

abbrev close_field : Bytes → List Bytes → List Bytes
close_field [] fields = fields
close_field (b ∷ field) fields = (b ∷ field) ∷ fields

fields_from : Bytes → List (ℕ × Bytes) → List Bytes
unfolding is_space
fields_from field [] = close_field field []
fields_from field ((r, raw) ∷ rest) =
    if is_space r then close_field field (fields_from [] rest) else fields_from (field ++ raw) rest

-- `strings.Fields`
unfoldable pub fields : Bytes → List Bytes
unfolding fields_from segments
fields s = fields_from [] (segments 0 s)
