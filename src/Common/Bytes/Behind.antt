-- ===== src/Common/Bytes/Behind.antt =====
-- What slices and reads find behind a prefix: for the round trips of the protocols' parsers.
use native.Mathlib.Nat.{zero-add, suc-add}
use white_toyota_tacoma.Common.{
  ℕ, ◌+◌, ◌≡◌, refl, ap, ◌∙◌, [], ◌∷◌, ◌++◌, length, take, drop, arith, length-append,
  take-length-append, drop-length-append,
}
use white_toyota_tacoma.Common.Result.{ok}
use white_toyota_tacoma.Common.Bytes.{Bytes, byte_at, slice, slice_from}
use white_toyota_tacoma.Common.Bytes.Safe.{slice-eq-ok, slice_from-eq-ok}

-- Positions behind a prefix, in terms of what stands there.
pub slice_from-behind : (pre t : Bytes) → slice_from (pre ++ t) (length pre) ≡ ok t
slice_from-behind pre t =
    slice_from-eq-ok (pre ++ t) (length pre) (omega (arith, length-append pre t))
    ∙ ap ok (drop-length-append pre t)

drop-take-append :
    (pre t u : Bytes) → drop (length pre) (take (length pre + length t) (pre ++ (t ++ u))) ≡ t
drop-take-append [] t u = rw zero-add (take-length-append t u)
drop-take-append (b ∷ pre) t u = rw suc-add (drop-take-append pre t u)

pub slice-behind :
    (pre t u : Bytes) → slice (pre ++ (t ++ u)) (length pre) (length pre + length t) ≡ ok t
slice-behind pre t u =
    slice-eq-ok (pre ++ (t ++ u)) (length pre) (length pre + length t) (omega arith)
      (omega (arith, length-append pre (t ++ u), length-append t u))
    ∙ ap ok (drop-take-append pre t u)

pub byte_at-behind : (pre : Bytes) (b : ℕ) (t : Bytes) → byte_at (pre ++ b ∷ t) (length pre) ≡ ok b
unfolding byte_at
byte_at-behind [] b t = refl
byte_at-behind (c ∷ pre) b t = byte_at-behind pre b t
