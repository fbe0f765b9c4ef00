-- ===== src/Common/Bytes/Safe.antt =====
-- Code that indexes and slices, and never faults.
use white_toyota_tacoma.Common.{
  ℕ, zero, suc, ◌+◌, ◌*◌, ◌≤◌, ◌<◌, ◌≡◌, ◌≢◌, refl, Bool, true, false, Option, none, some, [], ◌∷◌,
  length, take, drop, get_elem?, arith, le→ltb,
}
use white_toyota_tacoma.Common.Result.{Error, panic, Result, ok, err, ◌>>=◌, ◌>>◌, reject, or_fail}
use white_toyota_tacoma.Common.Bytes.{Bytes, byte_at, slice, slice_from, uint32_le, uint32_be}

-- A result that is no run-time fault.
pub data IsSafe {A : Type 0} : Result A → Type 0 where
  fine : {a : A} → IsSafe (ok a)
  fails : {e : Error} → e ≢ panic → IsSafe (err e)

pub IsSafe-ne-panic : {A : Type 0} {r : Result A} → IsSafe r → r ≢ err panic
IsSafe-ne-panic fine e = cc
IsSafe-ne-panic (fails h) e = h (cc e)

pub bind-IsSafe :
    {A B : Type 0} (m : Result A) (f : A → Result B)
    → IsSafe m
    → ((a : A) → m ≡ ok a → IsSafe (f a))
    → IsSafe (m >>= f)
bind-IsSafe (ok a) f h k = k a refl
bind-IsSafe (err e) f (fails h) k = fails h

pub guard-IsSafe :
    {B : Type 0} (b : Bool) (e : Error) (m : Result B)
    → e ≢ panic
    → (b ≡ false → IsSafe m)
    → IsSafe (reject b e >> m)
guard-IsSafe true e m h k = fails h
guard-IsSafe false e m h k = k refl

pub or_fail-IsSafe : {A : Type 0} (o : Option A) (e : Error) → e ≢ panic → IsSafe (or_fail o e)
or_fail-IsSafe none e h = fails h
or_fail-IsSafe (some a) e h = fine

pub slice-eq-ok :
    (s : Bytes) (i j : ℕ) → i ≤ j → j ≤ length s → slice s i j ≡ ok (drop i (take j s))
unfolding slice
slice-eq-ok s i j h k = rw (le→ltb j i h, le→ltb (length s) j k)

pub slice-IsSafe : (s : Bytes) (i j : ℕ) → i ≤ j → j ≤ length s → IsSafe (slice s i j)
slice-IsSafe s i j h k = rw (slice-eq-ok s i j h k) fine

pub slice_from-eq-ok : (s : Bytes) (i : ℕ) → i ≤ length s → slice_from s i ≡ ok (drop i s)
unfolding slice_from
slice_from-eq-ok s i h = rw (le→ltb (length s) i h)

pub slice_from-IsSafe : (s : Bytes) (i : ℕ) → i ≤ length s → IsSafe (slice_from s i)
slice_from-IsSafe s i h = rw (slice_from-eq-ok s i h) fine

get_elem?-some : (s : Bytes) (i : ℕ) → i < length s → (b : ℕ) × (get_elem? s i ≡ some b)
get_elem?-some [] i h = absurd (omega arith)
get_elem?-some (b ∷ s) zero h = (b, refl)
get_elem?-some (b ∷ s) (suc i) h = get_elem?-some s i (omega arith)

pub byte_at-IsSafe : (s : Bytes) (i : ℕ) → i < length s → IsSafe (byte_at s i)
unfolding byte_at
byte_at-IsSafe s i h = let (b, e) = get_elem?-some s i h in rw e fine

pub uint32_le-IsSafe : (s : Bytes) → 4 ≤ length s → IsSafe (uint32_le s)
unfolding uint32_le
uint32_le-IsSafe (a ∷ b ∷ c ∷ d ∷ s) h = fine
uint32_le-IsSafe (a ∷ b ∷ c ∷ []) h = absurd (omega arith)
uint32_le-IsSafe (a ∷ b ∷ []) h = absurd (omega arith)
uint32_le-IsSafe (a ∷ []) h = absurd (omega arith)
uint32_le-IsSafe [] h = absurd (omega arith)

pub uint32_be-IsSafe : (s : Bytes) → 4 ≤ length s → IsSafe (uint32_be s)
unfolding uint32_be
uint32_be-IsSafe (a ∷ b ∷ c ∷ d ∷ s) h = fine
uint32_be-IsSafe (a ∷ b ∷ c ∷ []) h = absurd (omega arith)
uint32_be-IsSafe (a ∷ b ∷ []) h = absurd (omega arith)
uint32_be-IsSafe (a ∷ []) h = absurd (omega arith)
uint32_be-IsSafe [] h = absurd (omega arith)

pub or_fail-eq-ok :
    {A : Type 0} (o : Option A) (e : Error) {a : A} → or_fail o e ≡ ok a → o ≡ some a
or_fail-eq-ok none e h = cc
or_fail-eq-ok (some b) e h = cc

pub byte_at_some : (s : Bytes) (i : ℕ) → i < length s → (b : ℕ) × (byte_at s i ≡ ok b)
unfolding byte_at
byte_at_some s i h = let (b, e) = get_elem?-some s i h in (b, rw e refl)

pub uint32_le_some : (s : Bytes) → 4 ≤ length s → (n : ℕ) × (uint32_le s ≡ ok n)
unfolding uint32_le
uint32_le_some (a ∷ b ∷ c ∷ d ∷ s) h = (a + b * 256 + c * 65536 + d * 16777216, refl)
uint32_le_some (a ∷ b ∷ c ∷ []) h = absurd (omega arith)
uint32_le_some (a ∷ b ∷ []) h = absurd (omega arith)
uint32_le_some (a ∷ []) h = absurd (omega arith)
uint32_le_some [] h = absurd (omega arith)
