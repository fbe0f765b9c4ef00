-- ===== src/Common/Quote.antt =====
-- The strings of `encoding/json`, with its escapes for HTML.
pub mod Graphic
pub mod Reader
use white_toyota_tacoma.Common.{
  ℕ, ◌+◌, ◌/◌, ◌%◌, ◌&&◌, ◌||◌, List, [], ◌∷◌, ◌++◌, ltb, ◌==◌, if◌then◌else◌, length,
}
use white_toyota_tacoma.Common.Bytes.{Bytes, codes}
use white_toyota_tacoma.Common.Utf8.{segments, rune_error}

abbrev hex_digit : ℕ → ℕ
hex_digit d = if ltb d 10 then d + 48 else d + 87

escape_unit : ℕ → Bytes
escape_unit r = codes "\\u00" ++ hex_digit (r / 16) ∷ hex_digit (r % 16) ∷ []

escape_ascii : ℕ → Bytes
unfolding escape_unit
escape_ascii r =
    if r == b'"' || r == b'\\'
    then b'\\' ∷ r ∷ []
    else if r == 10
    then codes "\\n"
    else if r == 13
    then codes "\\r"
    else if r == 9
    then codes "\\t"
    else if ltb r 0x20 || (r == b'<' || (r == b'>' || r == b'&'))
    then escape_unit r
    else r ∷ []

escape_segment : ℕ → Bytes → Bytes
unfolding escape_ascii
escape_segment r raw =
    if ltb r 0x80
    then escape_ascii r
    else if r == rune_error && length raw == 1
    then codes "\\ufffd"
    else if r == 0x2028
    then codes "\\u2028"
    else if r == 0x2029
    then codes "\\u2029"
    else raw

escape_all : List (ℕ × Bytes) → Bytes
unfolding escape_segment
escape_all [] = []
escape_all ((r, raw) ∷ rest) = escape_segment r raw ++ escape_all rest

unfoldable pub json_string : Bytes → Bytes
unfolding escape_all segments
json_string s = b'"' ∷ (escape_all (segments 0 s) ++ b'"' ∷ [])
