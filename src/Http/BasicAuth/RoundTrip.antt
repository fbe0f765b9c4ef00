-- ===== src/Http/BasicAuth/RoundTrip.antt =====
-- The credentials that a client puts into the header are those that the handler finds.
use white_toyota_tacoma.Common.{
  ℕ, ◌+◌, ◌-◌, ◌*◌, ◌/◌, ◌%◌, ◌<◌, ◌≡◌, ◌≢◌, refl, ap, ◌∙◌, false, ◌||◌, some, [], ◌∷◌, ◌++◌, ltb,
  ◌==◌, if◌then◌else◌, All, arith, take-length-append, drop-length-cons,
}
use white_toyota_tacoma.Common.Bytes.{Bytes, IsByte, Lacks, codes, same, index_byte-append}
use white_toyota_tacoma.Http.BasicAuth.{
  digit_value, without_breaks, is_pad, then_some, prefixed, one_byte, two_bytes, three_bytes,
  last_group, decode_groups, base64_decode, cut_at, credentials, basic_auth,
}

-- The encoding, as a client has it.
digit : ℕ → ℕ
digit n =
    if ltb n 26
    then n + 65
    else if ltb n 52
    then n + 71
    else if ltb n 62
    then n - 4
    else if n == 62
    then b'+'
    else b'/'

pub base64 : Bytes → Bytes
base64 [] = []
base64 (a ∷ []) = digit (a / 4) ∷ digit (a % 4 * 16) ∷ b'=' ∷ b'=' ∷ []
base64 (a ∷ b ∷ []) = digit (a / 4) ∷ digit (a % 4 * 16 + b / 16) ∷ digit (b % 16 * 4) ∷ b'=' ∷ []
base64 (a ∷ b ∷ c ∷ s) =
    digit (a / 4)
    ∷ digit (a % 4 * 16 + b / 16)
    ∷ digit (b % 16 * 4 + c / 64)
    ∷ digit (c % 64)
    ∷ base64 s

digit_value-digit : (n : ℕ) → n < 64 → digit_value (digit n) ≡ some n
unfolding digit_value digit
digit_value-digit n h = ground arith

digit-visible : (n : ℕ) → n < 64 → (digit n == 10 || digit n == 13) ≡ false
unfolding digit
digit-visible n h = ground arith

digit-ne-pad : (n : ℕ) → n < 64 → is_pad (digit n) ≡ false
unfolding digit
digit-ne-pad n h = ground arith

without_breaks-base64 : (s : Bytes) → All IsByte s → without_breaks (base64 s) ≡ base64 s
unfolding without_breaks base64
without_breaks-base64 [] h = refl
without_breaks-base64 (a ∷ []) h =
    rw (digit-visible (a / 4) (omega arith), digit-visible (a % 4 * 16) (omega arith))
without_breaks-base64 (a ∷ b ∷ []) h = rw (
  digit-visible (a / 4) (omega arith),
  digit-visible (a % 4 * 16 + b / 16) (omega arith),
  digit-visible (b % 16 * 4) (omega arith),
)
without_breaks-base64 (a ∷ b ∷ c ∷ s) h =
    rw
      (
        digit-visible (a / 4) (omega arith),
        digit-visible (a % 4 * 16 + b / 16) (omega arith),
        digit-visible (b % 16 * 4 + c / 64) (omega arith),
        digit-visible (c % 64) (omega arith),
      )
      (rw (without_breaks-base64 s h.1.1.1))

three :
    {a b c a' b' c' : ℕ}
    → a ≡ a'
    → b ≡ b'
    → c ≡ c'
    → some (a ∷ b ∷ c ∷ []) ≡ some (a' ∷ b' ∷ c' ∷ [])
three e f g = cc

two : {a b a' b' : ℕ} → a ≡ a' → b ≡ b' → some (a ∷ b ∷ []) ≡ some (a' ∷ b' ∷ [])
two e f = cc

-- A group of four that is not the last, or is not padded.
group :
    (a b c : ℕ)
    → a < 256
    → b < 256
    → c < 256
    → three_bytes
        (digit (a / 4))
        (digit (a % 4 * 16 + b / 16))
        (digit (b % 16 * 4 + c / 64))
        (digit (c % 64))
      ≡ some (a ∷ b ∷ c ∷ [])
unfolding three_bytes
group a b c h k l =
    rw
      (
        digit_value-digit (a / 4) (omega arith),
        digit_value-digit (a % 4 * 16 + b / 16) (omega arith),
        digit_value-digit (b % 16 * 4 + c / 64) (omega arith),
        digit_value-digit (c % 64) (omega arith),
      )
      (three (omega arith) (omega arith) (omega arith))

-- A group in front of others.
decode_groups-cons :
    (a b c d : ℕ) (t : Bytes)
    → t ≢ []
    → decode_groups (a ∷ b ∷ c ∷ d ∷ t)
      ≡ then_some (three_bytes a b c d) (λ u. prefixed u (decode_groups t))
unfolding decode_groups
decode_groups-cons a b c d [] h = absurd (h refl)
decode_groups-cons a b c d (e ∷ t) h = refl

base64-ne-nil : (a : ℕ) (s : Bytes) → base64 (a ∷ s) ≢ []
unfolding base64
base64-ne-nil a [] e = cc
base64-ne-nil a (b ∷ []) e = cc
base64-ne-nil a (b ∷ c ∷ s) e = cc

decode_groups-base64 : (s : Bytes) → All IsByte s → decode_groups (base64 s) ≡ some s
unfolding decode_groups base64 last_group one_byte two_bytes
decode_groups-base64 [] h = refl
decode_groups-base64 (a ∷ []) h =
    rw (digit_value-digit (a / 4) (omega arith), digit_value-digit (a % 4 * 16) (omega arith))
      (ap (λ n. some (n ∷ [])) (omega arith))
decode_groups-base64 (a ∷ b ∷ []) h = rw (digit-ne-pad (b % 16 * 4) (omega arith)) (
    rw
      (
        digit_value-digit (a / 4) (omega arith),
        digit_value-digit (a % 4 * 16 + b / 16) (omega arith),
        digit_value-digit (b % 16 * 4) (omega arith),
      )
      (two (omega arith) (omega arith)))
decode_groups-base64 (a ∷ b ∷ c ∷ []) h =
    rw (digit-ne-pad (c % 64) (omega arith)) (group a b c h.0 h.1.0 h.1.1.0)
decode_groups-base64 (a ∷ b ∷ c ∷ d ∷ s) h =
    decode_groups-cons (digit (a / 4)) (digit (a % 4 * 16 + b / 16)) (digit (b % 16 * 4 + c / 64))
      (digit (c % 64)) (base64 (d ∷ s)) (base64-ne-nil d s)
    ∙ rw (group a b c h.0 h.1.0 h.1.1.0) (rw (decode_groups-base64 (d ∷ s) h.1.1.1))

-- `BasicAuth` gives back the user and the password that a client put into the header, if there is
-- no colon in the user; the password may have any bytes.
pub basic_auth-base64 :
    (user password : Bytes)
    → All IsByte (user ++ b':' ∷ password)
    → Lacks b':' user
    → basic_auth (codes "Basic " ++ base64 (user ++ b':' ∷ password)) ≡ some (user, password)
unfolding basic_auth credentials base64_decode cut_at same
basic_auth-base64 user password h l = rw (without_breaks-base64 (user ++ b':' ∷ password) h) (
    rw (decode_groups-base64 (user ++ b':' ∷ password) h) (
      rw (index_byte-append b':' user password l)
        (rw (take-length-append user (b':' ∷ password), drop-length-cons user b':' password))))
