-- ===== src/Common/Result.antt =====
-- Go's `error` results. `panic` is a run-time fault: an index or a slice out of range.
use Prim.Native.String.{String}
use white_toyota_tacoma.Common.{◌≡◌, refl, Bool, true, false, Option, none, some}

pub data Error : Type 0 where
  eof unexpected_eof write_failed panic : Error
  -- A value that wraps `ErrProto`.
  err_proto : Error
  -- Any other error of `fmt.Errorf`, by its format.
  failure : String → Error

pub data Result {ℓ} (T : Type ℓ) : Type ℓ where
  err : Error → Result T
  ok : T → Result T

-- `v, err := …; if err != nil { return err }`
infixl 5 ◌>>=◌ ◌>>◌
abbrev pub ◌>>=◌ {ℓ κ} : {S : Type ℓ} {T : Type κ} → Result S → (S → Result T) → Result T
err stop >>= rest = err stop
ok v >>= rest = rest v

-- `if cond { return err }`
abbrev pub reject : Bool → Error → Result (Unit {0})
reject false stop = ok tt
reject true stop = err stop

-- The same where there is no value.
abbrev pub ◌>>◌ {ℓ} : {T : Type ℓ} → Result (Unit {0}) → Result T → Result T
first >> rest = first >>= λ unit. rest

abbrev pub or_fail {ℓ} : {T : Type ℓ} → Option T → Error → Result T
or_fail none stop = err stop
or_fail (some v) stop = ok v

pub >>=-eq-ok {ℓ κ} :
    {S : Type ℓ} {T : Type κ} (first : Result S) (rest : S → Result T) {t : T}
    → (first >>= rest) ≡ ok t
    → (v : S) × (first ≡ ok v) × (rest v ≡ ok t)
>>=-eq-ok (err stop) rest e = cc
>>=-eq-ok (ok v) rest e = (v, refl, e)
