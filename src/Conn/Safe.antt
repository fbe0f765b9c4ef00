-- ===== src/Conn/Safe.antt =====
-- Actions that meet no run-time fault, with the input that they leave.
use white_toyota_tacoma.Common.{
  ℕ, zero, suc, ◌+◌, ◌≤◌, ◌≡◌, ◌≢◌, inl, inr, [], ◌∷◌, ltb, ◌==◌, length, arith, Bool-cases,
  length-drop, length-take, ltb→le,
}
use white_toyota_tacoma.Common.Bytes.{Bytes, read_full}
use white_toyota_tacoma.Common.Result.{Error, Result, ok, err, panic}
use white_toyota_tacoma.Conn.{Conn, M, ◌>>=◌, and_then, receive, reading, send, send_within}
use white_toyota_tacoma.Conn.Progress.{Takes, took, failed}

-- An action that leaves at least `k` of `n` bytes fewer, or fails with an error.
pub data Safely {A : Type 0} (k n : ℕ) : Result A × Conn → Type 0 where
  done : {a : A} {c : Conn} → length c.input + k ≤ n → Safely k n (ok a, c)
  fails : {e : Error} {c : Conn} → e ≢ panic → Safely k n (err e, c)

pub Safely-Takes : {A : Type 0} {k n : ℕ} {r : Result A × Conn} → Safely k n r → Takes k n r
Safely-Takes (done h) = took h
Safely-Takes (fails h) = failed

-- The fault is not among the results.
pub Safely-ne-panic : {A : Type 0} {k n : ℕ} {r : Result A × Conn} → Safely k n r → r.0 ≢ err panic
Safely-ne-panic (done h) e = cc
Safely-ne-panic (fails h) e = h (cc e)

and_then-Safely :
    {A B : Type 0} (k n : ℕ) (r : Result A × Conn) (f : A → M B)
    → Safely k n r
    → ((a : A) (c : Conn) → length c.input + k ≤ n → Safely k n (f a c))
    → Safely k n (and_then r f)
and_then-Safely k n (ok a, c) f (done h) g = g a c h
and_then-Safely k n (err e, c) f (fails h) g = fails h

pub bind-Safely :
    {A B : Type 0} (k n : ℕ) (m : M A) (f : A → M B) (c : Conn)
    → Safely k n (m c)
    → ((a : A) (c' : Conn) → length c'.input + k ≤ n → Safely k n (f a c'))
    → Safely k n ((m >>= f) c)
bind-Safely k n m f c h g = and_then-Safely k n (m c) f h g

pub Safely-behind :
    {A : Type 0} {j k m n : ℕ} {r : Result A × Conn} → m + k ≤ n → Safely j m r → Safely k n r
Safely-behind h (done l) = done (omega arith)
Safely-behind h (fails l) = fails l

send_within-Safely :
    (w k n : ℕ) (b : Bytes) (c : Conn) → length c.input + k ≤ n → Safely k n (send_within w b c)
send_within-Safely zero k n b c h = fails (λ e. cc)
send_within-Safely (suc w) k n b c h = done h

pub send-Safely : (k n : ℕ) (b : Bytes) (c : Conn) → length c.input + k ≤ n → Safely k n (send b c)
send-Safely k n b c h = send_within-Safely c.accepts k n b c h

-- `io.ReadFull` returns as many bytes as it is asked for, or fails.
pub data Reads (k n : ℕ) : Result (Bytes × Bytes) → Type 0 where
  whole : {b rest : Bytes} → length b ≡ k → length rest + k ≤ n → Reads k n (ok (b, rest))
  stops : {e : Error} → e ≢ panic → Reads k n (err e)

read_full-Reads : (k : ℕ) (s : Bytes) → Reads k (length s) (read_full k s)
unfolding read_full
read_full-Reads k [] = elim (Bool-cases (k == 0)) [
  | inl e ↦ rw e (whole (ground arith) (ground arith))
  | inr e ↦ rw e (stops (λ x. cc))
]
read_full-Reads k (b ∷ s) = elim (Bool-cases (ltb (length (b ∷ s)) k)) [
  | inl e ↦ rw e (stops (λ x. cc))
  | inr e ↦
      let enough : k ≤ length (b ∷ s) = ltb→le (length (b ∷ s)) k e in
      rw e (
        whole (omega (arith, length-take k (b ∷ s), enough))
          (omega (arith, length-drop k (b ∷ s), enough)))
]

reading-Safely :
    {B : Type 0} (k n : ℕ) (r : Result (Bytes × Bytes)) (f : Bytes → M B) (c : Conn)
    → Reads k n r
    → ((b : Bytes) (c' : Conn) → length b ≡ k → length c'.input + k ≤ n → Safely k n (f b c'))
    → Safely k n (and_then (reading r c) f)
reading-Safely k n (ok (b, rest)) f c (whole e h) g = g b (record c { input = rest }) e h
reading-Safely k n (err e) f c (stops h) g = fails h

pub receive-Safely :
    {B : Type 0} (k : ℕ) (f : Bytes → M B) (c : Conn)
    → ((b : Bytes) (c' : Conn)
        → length b ≡ k
        → length c'.input + k ≤ length c.input
        → Safely k (length c.input) (f b c'))
    → Safely k (length c.input) ((receive k >>= f) c)
receive-Safely k f c g =
    reading-Safely k (length c.input) (read_full k c.input) f c (read_full-Reads k c.input) g
