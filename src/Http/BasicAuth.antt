-- ===== src/Http/BasicAuth.antt =====
-- `BasicAuth` of `net/http`: the user and the password of the header `Authorization`.
pub mod RoundTrip
use white_toyota_tacoma.Common.{
  ℕ, ◌+◌, ◌-◌, ◌*◌, ◌/◌, ◌%◌, Bool, true, false, ◌&&◌, ◌||◌, Option, none, some, List, [], ◌∷◌,
  ◌++◌, ltb, leb, ◌==◌, if◌then◌else◌, take, drop,
}
use white_toyota_tacoma.Common.Bytes.{Bytes, codes, same, index_byte}

-- The value of a character of base64.
unfoldable pub digit_value : ℕ → Option ℕ
digit_value c =
    if leb b'A' c && leb c b'Z'
    then some (c - 65)
    else if leb b'a' c && leb c b'z'
    then some (c - 71)
    else if leb b'0' c && leb c b'9'
    then some (c + 4)
    else if c == b'+'
    then some 62
    else if c == b'/'
    then some 63
    else none

-- A carriage return and a line feed are passed over.
unfoldable pub without_breaks : Bytes → Bytes
without_breaks [] = []
without_breaks (c ∷ s) =
    let rest = without_breaks s in if c == 10 || c == 13 then rest else c ∷ rest

module _ {A B : Type 0} where
  abbrev pub then_some : Option A → (A → Option B) → Option B
  then_some none f = none
  then_some (some a) f = f a

abbrev prefixed : Bytes → Option Bytes → Option Bytes
prefixed s none = none
prefixed s (some t) = some (s ++ t)

abbrev pub is_pad : ℕ → Bool
is_pad c = c == b'='

-- Two and three characters of a last group, whose bits beyond the byte are not looked at.
unfoldable pub one_byte : ℕ → ℕ → Option Bytes
unfolding digit_value
one_byte a b =
    then_some (digit_value a) λ x. then_some (digit_value b) λ y. some ((x * 4 + y / 16) ∷ [])

unfoldable pub two_bytes : ℕ → ℕ → ℕ → Option Bytes
unfolding digit_value
two_bytes a b c = then_some (digit_value a) λ x.
    then_some (digit_value b)
      λ y. then_some (digit_value c) λ z. some ((x * 4 + y / 16) ∷ (y % 16 * 16 + z / 4) ∷ [])

unfoldable pub three_bytes : ℕ → ℕ → ℕ → ℕ → Option Bytes
unfolding digit_value
three_bytes a b c d = then_some (digit_value a) λ x. then_some (digit_value b) λ y.
    then_some (digit_value c) λ z.
      then_some (digit_value d)
        λ w. some ((x * 4 + y / 16) ∷ (y % 16 * 16 + z / 4) ∷ (z % 4 * 64 + w) ∷ [])

-- A last group, with its padding.
unfoldable pub last_group : ℕ → ℕ → ℕ → ℕ → Option Bytes
unfolding one_byte two_bytes three_bytes
last_group a b c d =
    if is_pad d then (if is_pad c then one_byte a b else two_bytes a b c) else three_bytes a b c d

-- `base64.StdEncoding.DecodeString` without breaks; only the last group may be padded.
unfoldable pub decode_groups : Bytes → Option Bytes
unfolding last_group three_bytes
decode_groups [] = some []
decode_groups (a ∷ b ∷ c ∷ d ∷ []) = last_group a b c d
decode_groups (a ∷ b ∷ c ∷ d ∷ e ∷ s) =
    let rest = decode_groups (e ∷ s) in then_some (three_bytes a b c d) λ t. prefixed t rest
decode_groups _ = none

unfoldable pub base64_decode : Bytes → Option Bytes
unfolding decode_groups without_breaks
base64_decode s = decode_groups (without_breaks s)

abbrev lower : ℕ → ℕ
lower c = if leb b'A' c && leb c b'Z' then c + 32 else c

lower_all : Bytes → Bytes
lower_all [] = []
lower_all (c ∷ s) = lower c ∷ lower_all s

-- `strings.Cut` at a colon.
unfoldable pub cut_at : Bytes → Option ℕ → Option (Bytes × Bytes)
cut_at s none = none
cut_at s (some i) = some (take i s, drop (i + 1) s)

unfoldable pub credentials : Bytes → Option (Bytes × Bytes)
unfolding cut_at base64_decode
credentials s = then_some (base64_decode s) λ t. cut_at t (index_byte t b':')

-- The scheme is compared without its case.
unfoldable pub basic_auth : Bytes → Option (Bytes × Bytes)
unfolding lower_all credentials
basic_auth header =
    if same (lower_all (take 6 header)) (codes "basic ") then credentials (drop 6 header) else none
