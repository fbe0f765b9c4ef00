-- ===== src/Common/Hex.antt =====
-- Lower-case hexadecimal: `%x` and `hex.EncodeToString`.
use white_toyota_tacoma.Common.{
  ℕ, ◌+◌, ◌*◌, ◌/◌, ◌%◌, ◌≤◌, ◌<◌, ◌≡◌, ◌⊎◌, refl, [], ◌∷◌, All, ltb, if◌then◌else◌, length, arith,
}
use white_toyota_tacoma.Common.Bytes.{Bytes, IsByte}

abbrev nibble : ℕ → ℕ
nibble d = if ltb d 10 then d + 48 else d + 87

-- `%x`
unfoldable pub hex : Bytes → Bytes
hex [] = []
hex (b ∷ s) = nibble (b / 16) ∷ nibble (b % 16) ∷ hex s

pub length-hex : (s : Bytes) → length (hex s) ≡ 2 * length s
unfolding hex
length-hex [] = refl
length-hex (b ∷ s) = omega (arith, length-hex s)

-- A digit of 0 to 9, or of a to f.
abbrev pub IsLowerHex : ℕ → Type 0
IsLowerHex c = ((48 ≤ c) × (c ≤ 57)) ⊎ ((97 ≤ c) × (c ≤ 102))

nibble-IsLowerHex : (d : ℕ) → d < 16 → IsLowerHex (nibble d)
nibble-IsLowerHex d h = ground arith

pub hex-IsLowerHex : (s : Bytes) → All IsByte s → All IsLowerHex (hex s)
unfolding hex
hex-IsLowerHex [] h = tt
hex-IsLowerHex (b ∷ s) h = (
  nibble-IsLowerHex (b / 16) (omega arith),
  (nibble-IsLowerHex (b % 16) (omega arith), hex-IsLowerHex s h.1),
)
