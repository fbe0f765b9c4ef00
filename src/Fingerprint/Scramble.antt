-- ===== src/Fingerprint/Scramble.antt =====
-- The challenge of the MySQL handshake.
use white_toyota_tacoma.Common.{
  ℕ, zero, suc, ◌+◌, ◌≤◌, ◌≡◌, ◌≢◌, refl, ap, inl, inr, Option, some, [], ◌∷◌, ◌==◌, if◌then◌else◌,
  length, arith, Bool-cases,
}
use white_toyota_tacoma.Common.Bytes.{Bytes, Lacks}
use white_toyota_tacoma.Fingerprint.{kept, scramble_of, mysql_scramble}

-- The bytes that are not 0.
abbrev pub non_zero : Bytes → ℕ
non_zero [] = 0
non_zero (b ∷ s) = (if b == 0 then 0 else 1) + non_zero s

abbrev IsScramble : ℕ → Option Bytes → Type 0
IsScramble n o = (b : Bytes) × (o ≡ some b) × (length b ≡ n) × Lacks 0 b

kept-IsScramble :
    (v n : ℕ) (o : Option Bytes) → v ≢ 0 → IsScramble n o → IsScramble (suc n) (kept v o)
unfolding kept
kept-IsScramble v n o h (b, e, l, k) = rw e (v ∷ b, refl, ap suc l, (h, k))

scramble_of-IsScramble :
    (n : ℕ) (stream : Bytes) → n ≤ non_zero stream → IsScramble n (scramble_of n stream)
unfolding scramble_of
scramble_of-IsScramble zero stream h = ([], refl, refl, tt)
scramble_of-IsScramble (suc n) [] h = absurd (omega arith)
scramble_of-IsScramble (suc n) (v ∷ stream) h = elim (Bool-cases (v == 0)) [
  | inl z ↦ rw z (scramble_of-IsScramble (suc n) stream (ground arith))
  | inr z ↦ rw z (
      kept-IsScramble v n (scramble_of n stream) (ground arith)
        (scramble_of-IsScramble n stream (ground arith)))
]

-- `MySQLScramble` returns once it has read 20 bytes that are not 0, however many zeros come
-- between, and what it returns has 20 bytes and no NUL.
pub mysql_scramble_lem :
    (stream : Bytes)
    → 20 ≤ non_zero stream
    → (b : Bytes) × (mysql_scramble stream ≡ some b) × (length b ≡ 20) × Lacks 0 b
unfolding mysql_scramble
mysql_scramble_lem stream h = scramble_of-IsScramble 20 stream h
