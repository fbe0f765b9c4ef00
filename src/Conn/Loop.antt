-- ===== src/Conn/Loop.antt =====
-- The loop of a protocol handler: rounds until one fails or returns. The fuel is a bound on the
-- rounds; where every round that goes on takes a byte of the input, one more than the bytes is
-- enough.
use white_toyota_tacoma.Common.{
  ℕ, zero, suc, ◌+◌, ◌≤◌, ◌<◌, ◌≡◌, refl, sym, ◌∙◌, Option, none, some, length, arith,
}
use native.Mathlib.Nat.{suc-add}
use white_toyota_tacoma.Common.Result.{Result, ok, err}
use white_toyota_tacoma.Conn.{Conn, M}
use white_toyota_tacoma.Conn.Progress.{Takes, took, failed}

abbrev pub fuel_for : Conn → ℕ
fuel_for c = suc (length c.input)

module _ {S : Type 0} where
  -- What is left of the loop behind a round; `ok none` is a return.
  abbrev pub after : (S → Conn → Option Conn) → Result (Option S) × Conn → Option Conn
  after rest (ok (some s), c) = rest s c
  after rest (ok none, c) = some c
  after rest (err e, c) = some c

  -- `none` where the fuel runs out.
  unfoldable pub loop : ℕ → (S → M (Option S)) → S → Conn → Option Conn
  loop zero round s c = none
  loop (suc fuel) round s c = after (loop fuel round) (round s c)

  abbrev pub Falls : ℕ → Result (Option S) × Conn → Type 0
  Falls n (ok (some s), c) = length c.input < n
  Falls n (ok none, c) = Unit
  Falls n (err e, c) = Unit

  pub Takes-Falls : {k n : ℕ} {r : Result (Option S) × Conn} → Takes (suc k) n r → Falls n r
  Takes-Falls (took {a = none} h) = tt
  Takes-Falls (took {a = some l} h) = omega arith
  Takes-Falls failed = tt

  abbrev pub Agree : (S → Conn → Option Conn) → (S → Conn → Option Conn) → S → Conn → Type 0
  Agree f g s c = (r : Conn) × (f s c ≡ some r) × (g s c ≡ some r)

  after-Agree :
      (f g : S → Conn → Option Conn) (n : ℕ) (r : Result (Option S) × Conn)
      → Falls n r
      → ((s : S) (c : Conn) → length c.input < n → Agree f g s c)
      → (d : Conn) × (after f r ≡ some d) × (after g r ≡ some d)
  after-Agree f g n (ok (some s), c) h agree = agree s c h
  after-Agree f g n (ok none, c) h agree = (c, refl, refl)
  after-Agree f g n (err e, c) h agree = (c, refl, refl)

  after_mono :
      (f g : S → Conn → Option Conn) (r : Result (Option S) × Conn) {d : Conn}
      → ((s : S) (c : Conn) → f s c ≡ some d → g s c ≡ some d)
      → after f r ≡ some d
      → after g r ≡ some d
  after_mono f g (ok (some s), c) h e = h s c e
  after_mono f g (ok none, c) h e = e
  after_mono f g (err x, c) h e = e

  loop_mono :
      (fuel extra : ℕ) (round : S → M (Option S)) (s : S) (c : Conn) {d : Conn}
      → loop fuel round s c ≡ some d
      → loop (fuel + extra) round s c ≡ some d
  unfolding loop
  loop_mono zero extra round s c e = cc
  loop_mono (suc fuel) extra round s c e = rw suc-add (
      after_mono (loop fuel round) (loop (fuel + extra) round) (round s c)
        (λ t d e'. loop_mono fuel extra round t d e') e)

module _ {S : Type 0} (round : S → M (Option S))
    (falls : (s : S) (c : Conn) → Falls (length c.input) (round s c)) where
  loop-Agree :
      (n fuel more : ℕ) (s : S) (c : Conn)
      → length c.input ≤ n
      → n ≤ fuel
      → n ≤ more
      → Agree (loop (suc fuel) round) (loop (suc more) round) s c
  unfolding loop
  loop-Agree zero fuel more s c h hf hm =
      after-Agree _ _ (length c.input) (round s c) (falls s c) (λ t d l. absurd (omega arith))
  loop-Agree (suc n) zero more s c h hf hm = absurd (omega arith)
  loop-Agree (suc n) (suc fuel) zero s c h hf hm = absurd (omega arith)
  loop-Agree (suc n) (suc fuel) (suc more) s c h hf hm =
      after-Agree _ _ (length c.input) (round s c) (falls s c)
        λ t d l. loop-Agree n fuel more t d (omega arith) (omega arith) (omega arith)

  pub loop_total :
      (s : S) (c : Conn) (fuel : ℕ)
      → fuel_for c ≤ fuel
      → (d : Conn) × (loop fuel round s c ≡ some d) × (loop (fuel_for c) round s c ≡ some d)
  loop_total s c zero h = absurd (omega arith)
  loop_total s c (suc fuel) h =
      loop-Agree (length c.input) fuel (length c.input) s c (omega arith) (omega arith)
        (omega arith)

  -- A result with any fuel is the result with enough.
  pub loop_same :
      (s : S) (c : Conn) (fuel : ℕ) {d : Conn}
      → loop fuel round s c ≡ some d
      → loop (fuel_for c) round s c ≡ some d
  loop_same s c fuel e =
      let (d', more, enough) = loop_total s c (fuel + fuel_for c) (omega arith) in
      enough ∙ sym more ∙ loop_mono fuel (fuel_for c) round s c e
