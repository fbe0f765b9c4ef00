-- ===== src/Redis/Resp/Progress.antt =====
-- Every command that is read takes at least one byte of the input away.
use white_toyota_tacoma.Common.{
  ℕ, zero, suc, ◌+◌, ◌≤◌, ◌≡◌, inl, inr, Bool, true, false, Option, none, some, [], ◌∷◌, ltb, ◌==◌,
  length, drop, arith, length-drop, Option-cases, Bool-cases,
}
use white_toyota_tacoma.Common.Int.{ℤ, pos, negsuc}
use white_toyota_tacoma.Common.Result.{Error, Result, ok, err, ◌>>=◌, ◌>>◌, reject}
use white_toyota_tacoma.Common.Bytes.{Bytes, index_byte, read_full}
use white_toyota_tacoma.Common.Decimal.{atoi}
use white_toyota_tacoma.Common.Utf8.{CaseTable}
use white_toyota_tacoma.Redis.Resp.{
  Command, read_line, read_bulk_body, read_bulk_string, read_bulks, command, read_count,
  read_multi_bulk, read_inline, read_on, read_command,
}

-- A read that succeeds leaves at most `n` bytes.
pub data Leaves {A : Type 0} (n : ℕ) : Result (A × Bytes) → Type 0 where
  left : {a : A} {rest : Bytes} → length rest ≤ n → Leaves n (ok (a, rest))
  failed : {e : Error} → Leaves n (err e)

bind-Leaves :
    {A B : Type 0} (n : ℕ) (m : Result (A × Bytes)) (f : A × Bytes → Result (B × Bytes))
    → Leaves n m
    → ((a : A) (rest : Bytes) → length rest ≤ n → Leaves n (f (a, rest)))
    → Leaves n (m >>= f)
bind-Leaves n (ok (a, rest)) f (left h) k = k a rest h
bind-Leaves n (err e) f h k = failed

pub Leaves-mono : {A : Type 0} {k n : ℕ} {m : Result (A × Bytes)} → k ≤ n → Leaves k m → Leaves n m
Leaves-mono h (left l) = left (omega arith)
Leaves-mono h failed = failed

guard-Leaves :
    {B : Type 0} (n : ℕ) (b : Bool) (e : Error) (m : Result (B × Bytes))
    → Leaves n m
    → Leaves n (reject b e >> m)
guard-Leaves n true e m h = failed
guard-Leaves n false e m h = h

map-Leaves :
    {A B : Type 0} (n : ℕ) (m : Result A) (f : A → B) (rest : Bytes)
    → length rest ≤ n
    → Leaves n (m >>= λ a. ok (f a, rest))
map-Leaves n (ok a) f rest h = left h
map-Leaves n (err e) f rest h = failed

read_full-Leaves : (k : ℕ) (s : Bytes) → Leaves (length s) (read_full k s)
unfolding read_full
read_full-Leaves k [] = elim (Bool-cases (k == 0)) [
  | inl e ↦ rw e (left (omega arith))
  | inr e ↦ rw e failed
]
read_full-Leaves k (b ∷ s) = elim (Bool-cases (ltb (length (b ∷ s)) k)) [
  | inl e ↦ rw e failed
  | inr e ↦ rw e (left (omega (arith, length-drop k (b ∷ s))))
]

read_line-Leaves : (b : ℕ) (s : Bytes) → Leaves (length s) (read_line (b ∷ s))
unfolding read_line
read_line-Leaves b s = elim (Option-cases (index_byte (b ∷ s) 10)) [
  | inl e ↦ rw e failed
  | inr (i, e) ↦ rw e (left (omega (arith, length-drop (i + 1) (b ∷ s))))
]

read_line-Leaves_weak : (s : Bytes) → Leaves (length s) (read_line s)
read_line-Leaves_weak [] = unfold read_line index_byte in failed
read_line-Leaves_weak (b ∷ s) = Leaves-mono (omega arith) (read_line-Leaves b s)

read_bulk_body-Leaves : (o : Option ℤ) (s : Bytes) → Leaves (length s) (read_bulk_body o s)
unfolding read_bulk_body
read_bulk_body-Leaves none s = failed
read_bulk_body-Leaves (some (negsuc zero)) s = left (omega arith)
read_bulk_body-Leaves (some (negsuc (suc n))) s = failed
read_bulk_body-Leaves (some (pos n)) s = guard-Leaves _ _ _ _ (
    bind-Leaves (length s) (read_full (n + 2) s) _ (read_full-Leaves (n + 2) s)
      λ buf rest h. guard-Leaves _ _ _ _ (left h))

read_bulk_string-Leaves : (s : Bytes) → Leaves (length s) (read_bulk_string s)
unfolding read_bulk_string
read_bulk_string-Leaves s =
    bind-Leaves (length s) (read_line s) _ (read_line-Leaves_weak s) λ line rest h.
      guard-Leaves _ _ _ _ (Leaves-mono h (read_bulk_body-Leaves (atoi (drop 1 line)) rest))

read_bulks-Leaves : (k : ℕ) (s : Bytes) → Leaves (length s) (read_bulks k s)
unfolding read_bulks
read_bulks-Leaves zero s = left (omega arith)
read_bulks-Leaves (suc k) s =
    bind-Leaves (length s) (read_bulk_string s) _ (read_bulk_string-Leaves s) λ bulk rest h.
      bind-Leaves (length s) (read_bulks k rest) _ (Leaves-mono h (read_bulks-Leaves k rest))
        λ bulks rest l. left l

read_count-Leaves :
    (t : CaseTable) (o : Option ℤ) (s : Bytes) → Leaves (length s) (read_count t o s)
unfolding read_count
read_count-Leaves t none s = failed
read_count-Leaves t (some (negsuc n)) s = failed
read_count-Leaves t (some (pos n)) s = guard-Leaves _ _ _ _ (
    bind-Leaves (length s) (read_bulks n s) _ (read_bulks-Leaves n s)
      λ args rest h. map-Leaves (length s) (command t args) (λ c. c) rest h)

read_on-Leaves : (t : CaseTable) (line s : Bytes) → Leaves (length s) (read_on t line s)
unfolding read_on read_multi_bulk
read_on-Leaves t [] s = failed
read_on-Leaves t (c ∷ line) s = elim (Bool-cases (c == b'*')) [
  | inl star ↦ rw star (read_count-Leaves t (atoi line) s)
  | inr other ↦ rw other (map-Leaves (length s) (read_inline t (c ∷ line)) (λ d. d) s (omega arith))
]

pub read_command-Leaves :
    (t : CaseTable) (b : ℕ) (s : Bytes) → Leaves (length s) (read_command t (b ∷ s))
unfolding read_command
read_command-Leaves t b s =
    bind-Leaves (length s) (read_line (b ∷ s)) _ (read_line-Leaves b s)
      λ line rest h. Leaves-mono h (read_on-Leaves t line rest)

pub read_command_nil :
    (t : CaseTable) → (c : Command) (rest : Bytes) → read_command t [] ≡ ok (c, rest) → ⊥
unfolding read_command read_line index_byte
read_command_nil t c rest e = cc
