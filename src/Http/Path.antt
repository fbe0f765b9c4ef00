-- ===== src/Http/Path.antt =====
-- `sanitizePath` of internal/proto/http/handler.go.
pub mod Safe
use white_toyota_tacoma.Common.{
  ℕ, Bool, true, false, ◌&&◌, ◌||◌, Option, some, ltb, leb, ◌==◌, if◌then◌else◌, length, take,
}
use white_toyota_tacoma.Common.Bytes.{Bytes}
use white_toyota_tacoma.Common.Utf8.{string_map}

abbrev pub max_path : ℕ
max_path = 512

-- The cases of the switch that keep a character.
abbrev pub is_plain : ℕ → Bool
is_plain r =
    (leb b'a' r && leb r b'z')
    || ((leb b'A' r && leb r b'Z')
        || ((leb b'0' r && leb r b'9') || (r == b'/' || (r == b'.' || (r == b'-' || r == b'_')))))

abbrev pub plain_or_underscore : ℕ → Option ℕ
plain_or_underscore r = if is_plain r then some r else some b'_'

unfoldable pub sanitize_path : Bytes → Bytes
unfolding string_map
sanitize_path s =
    string_map plain_or_underscore (if ltb max_path (length s) then take max_path s else s)
