-- ===== src/Common/Decimal.antt =====
-- `%d` of `fmt` and `strconv.Atoi`.
use white_toyota_tacoma.Common.{
  ℕ, zero, suc, ◌+◌, ◌-◌, ◌*◌, ◌/◌, ◌%◌, ◌^◌, ◌≤◌, ◌<◌, ◌≡◌, refl, ◌∙◌, Bool, true, false, ◌&&◌,
  Option, none, some, [], ◌∷◌, arith, ltb, leb, ◌==◌, if◌then◌else◌, All,
}
use white_toyota_tacoma.Common.Int.{ℤ, pos, negsuc}
use white_toyota_tacoma.Common.Bytes.{Bytes}

-- The digits of `n` in front of `tail`. More fuel than `n` is enough.
unfoldable pub digits : ℕ → ℕ → Bytes → Bytes
digits zero n tail = tail
digits (suc f) n tail = elim (ltb n 10) [
  | true ↦ (n + 48) ∷ tail
  | false ↦ digits f (n / 10) ((n % 10 + 48) ∷ tail)
]

unfoldable pub itoa : ℕ → Bytes
unfolding digits
itoa n = digits (suc n) n []

-- `%d` of an `int64`.
unfoldable pub format_int : ℤ → Bytes
unfolding itoa
format_int (pos n) = itoa n
format_int (negsuc n) = b'-' ∷ itoa (suc n)

abbrev pub IsDigit : ℕ → Type 0
IsDigit c = (48 ≤ c) × (c ≤ 57)

unfoldable pub digits_value : ℕ → Bytes → Option ℕ
digits_value acc [] = some acc
digits_value acc (c ∷ s) =
    let rest = digits_value (acc * 10 + (c - 48)) s in if leb 48 c && leb c 57 then rest else none

abbrev in_range : Bool → Option ℕ → Option ℤ
in_range neg none = none
in_range false (some n) = if ltb n (2 ^ 63) then some (pos n) else none
in_range true (some zero) = some (pos 0)
in_range true (some (suc n)) = if ltb n (2 ^ 63) then some (negsuc n) else none

unsigned : Bool → Bytes → Option ℤ
unfolding digits_value
unsigned neg [] = none
unsigned neg (c ∷ s) = in_range neg (digits_value 0 (c ∷ s))

unfoldable pub atoi : Bytes → Option ℤ
unfolding unsigned
atoi [] = none
atoi (c ∷ s) =
    if c == b'-'
    then unsigned true s
    else if c == b'+'
    then unsigned false s
    else unsigned false (c ∷ s)

digits_value-digits :
    (f n : ℕ) (tail : Bytes) → n < f → digits_value 0 (digits f n tail) ≡ digits_value n tail
unfolding digits digits_value
digits_value-digits zero n tail h = absurd (omega arith)
digits_value-digits (suc f) n tail h =
    ground (arith, digits_value-digits f (n / 10) ((n % 10 + 48) ∷ tail))

abbrev StartsWithDigit : Bytes → Type 0
StartsWithDigit [] = ⊥
StartsWithDigit (c ∷ s) = IsDigit c

digits-StartsWithDigit : (f n : ℕ) (tail : Bytes) → n < f → StartsWithDigit (digits f n tail)
unfolding digits
digits-StartsWithDigit zero n tail h = absurd (omega arith)
digits-StartsWithDigit (suc f) n tail h =
    ground (arith, digits-StartsWithDigit f (n / 10) ((n % 10 + 48) ∷ tail))

digits-IsDigit : (f n : ℕ) (tail : Bytes) → All IsDigit tail → All IsDigit (digits f n tail)
unfolding digits
digits-IsDigit zero n tail h = h
digits-IsDigit (suc f) n tail h =
    ground (arith, digits-IsDigit f (n / 10) ((n % 10 + 48) ∷ tail) (omega arith, h))

pub itoa-IsDigit : (n : ℕ) → All IsDigit (itoa n)
unfolding itoa
itoa-IsDigit n = digits-IsDigit (suc n) n [] tt

atoi_unsigned :
    (s : Bytes) {n : ℕ}
    → StartsWithDigit s
    → digits_value 0 s ≡ some n
    → n < 2 ^ 63
    → atoi s ≡ some (pos n)
unfolding atoi
atoi_unsigned [] d e h = absurd d
atoi_unsigned (c ∷ s) d e h = ground arith

pub atoi-itoa : (n : ℕ) → n < 2 ^ 63 → atoi (itoa n) ≡ some (pos n)
unfolding itoa
atoi-itoa n h =
    atoi_unsigned (digits (suc n) n []) (digits-StartsWithDigit (suc n) n [] (omega arith))
      (digits_value-digits (suc n) n [] (omega arith) ∙ (unfold digits_value in refl)) h
