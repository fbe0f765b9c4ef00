-- ===== src/Conn/Progress.antt =====
-- How much of the input an action leaves.
use white_toyota_tacoma.Common.{
  ℕ, zero, suc, ◌+◌, ◌≤◌, inl, inr, [], ◌∷◌, ltb, ◌==◌, length, arith, Bool-cases, length-drop,
  ltb→le,
}
use white_toyota_tacoma.Common.Bytes.{Bytes, read_full}
use white_toyota_tacoma.Common.Result.{Error, Result, ok, err}
use white_toyota_tacoma.Capture.{Event}
use white_toyota_tacoma.Conn.{
  Conn, M, ◌>>=◌, lift, and_then, receive, reading, send, send_within, log_event,
}

-- An action that succeeds leaves at least `k` of `n` bytes fewer.
pub data Takes {A : Type 0} (k n : ℕ) : Result A × Conn → Type 0 where
  took : {a : A} {c : Conn} → length c.input + k ≤ n → Takes k n (ok a, c)
  failed : {e : Error} {c : Conn} → Takes k n (err e, c)

and_then-Takes :
    {A B : Type 0} (k n : ℕ) (r : Result A × Conn) (f : A → M B)
    → Takes k n r
    → ((a : A) (c : Conn) → length c.input + k ≤ n → Takes k n (f a c))
    → Takes k n (and_then r f)
and_then-Takes k n (ok a, c) f (took h) g = g a c h
and_then-Takes k n (err e, c) f h g = failed

pub bind-Takes :
    {A B : Type 0} (k n : ℕ) (m : M A) (f : A → M B) (c : Conn)
    → Takes k n (m c)
    → ((a : A) (c' : Conn) → length c'.input + k ≤ n → Takes k n (f a c'))
    → Takes k n ((m >>= f) c)
bind-Takes k n m f c h g = and_then-Takes k n (m c) f h g

-- Behind an action that took `k` bytes, one that takes any.
pub Takes-behind :
    {A : Type 0} {j k m n : ℕ} {r : Result A × Conn} → m + k ≤ n → Takes j m r → Takes k n r
Takes-behind h (took l) = took (omega arith)
Takes-behind h failed = failed

send_within-Takes :
    (w k n : ℕ) (b : Bytes) (c : Conn) → length c.input + k ≤ n → Takes k n (send_within w b c)
send_within-Takes zero k n b c h = failed
send_within-Takes (suc w) k n b c h = took h

pub send-Takes : (k n : ℕ) (b : Bytes) (c : Conn) → length c.input + k ≤ n → Takes k n (send b c)
send-Takes k n b c h = send_within-Takes c.accepts k n b c h

pub log_event-Takes :
    (k n : ℕ) (e : Event) (c : Conn) → length c.input + k ≤ n → Takes k n (log_event e c)
log_event-Takes k n e c h = took h

pub lift-Takes :
    {A : Type 0} (k n : ℕ) (r : Result A) (c : Conn) → length c.input + k ≤ n → Takes k n (lift r c)
lift-Takes k n (ok a) c h = took h
lift-Takes k n (err e) c h = failed

read_full-Takes : (k : ℕ) (s : Bytes) (c : Conn) → Takes k (length s) (reading (read_full k s) c)
unfolding read_full
read_full-Takes k [] c = elim (Bool-cases (k == 0)) [
  | inl e ↦ rw e (took (ground arith))
  | inr e ↦ rw e failed
]
read_full-Takes k (b ∷ s) c = elim (Bool-cases (ltb (length (b ∷ s)) k)) [
  | inl e ↦ rw e failed
  | inr e ↦ rw e (took (omega (arith, length-drop k (b ∷ s), ltb→le (length (b ∷ s)) k e)))
]

pub receive-Takes : (k : ℕ) (c : Conn) → Takes k (length c.input) (receive k c)
receive-Takes k c = read_full-Takes k c.input c
