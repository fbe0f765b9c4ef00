-- ===== src/Redis/Session/Total.antt =====
-- The loop ends, whatever the peer sends.
use white_toyota_tacoma.Common.{
  ℕ, zero, suc, ◌+◌, ◌<◌, ◌≤◌, ◌≡◌, refl, sym, ◌∙◌, Bool, Option, some, [], ◌∷◌, length, arith,
}
use native.Mathlib.Nat.{suc-add}
use white_toyota_tacoma.Common.Bytes.{Bytes}
use white_toyota_tacoma.Common.Result.{Result, ok, err}
use white_toyota_tacoma.Conn.{Conn}
use white_toyota_tacoma.Redis.Resp.{Command, read_command}
use white_toyota_tacoma.Redis.Resp.Progress.{
  Leaves, Leaves-mono, left, read_command-Leaves, read_command_nil,
}
use white_toyota_tacoma.Redis.Commands.{Env, Counters}
use white_toyota_tacoma.Redis.Session.{
  Next, go, stop, flush, finish, respond, on_read, on_poll, after, round, loop, fuel_for,
}

-- Behind a round that goes on, fewer than `n` bytes are left.
abbrev Falls : ℕ → Next → Type 0
Falls n (go k c) = length c.input < n
Falls n (stop k c) = Unit

finish-Falls :
    (q : Bool) (out : Bytes) (k : Counters) (c : Conn) (n : ℕ)
    → length c.input < n
    → Falls n (finish q out k c)
unfolding finish flush
finish-Falls q out k c n h = ground arith

on_read-Falls :
    (env : Env) (r : Result (Command × Bytes)) (k : Counters) (c : Conn) (n : ℕ)
    → Leaves n r
    → Falls (suc n) (on_read env r k c)
unfolding on_read respond
on_read-Falls env (err e) k c n l = tt
on_read-Falls env (ok (cmd, rest)) k c n (left h) = finish-Falls _ _ _ _ (suc n) (omega arith)

read_nil-Falls :
    (env : Env) (k : Counters) (c : Conn) (r : Result (Command × Bytes))
    → ((cmd : Command) (rest : Bytes) → r ≡ ok (cmd, rest) → ⊥)
    → (n : ℕ) → Falls n (on_read env r k c)
unfolding on_read
read_nil-Falls env k c (err e) h n = tt
read_nil-Falls env k c (ok (cmd, rest)) h n = absurd (h cmd rest refl)

read-Falls :
    (env : Env) (k : Counters) (c : Conn) (s : Bytes) (n : ℕ)
    → length s ≤ n
    → Falls n (on_read env (read_command env.table s) k c)
read-Falls env k c [] n h =
    read_nil-Falls env k c (read_command env.table []) (read_command_nil env.table) n
read-Falls env k c (b ∷ s) zero h = absurd (omega arith)
read-Falls env k c (b ∷ s) (suc n) h =
    on_read-Falls env _ k c n (Leaves-mono (omega arith) (read_command-Leaves env.table b s))

on_poll-Falls :
    (alive : ℕ) (env : Env) (k : Counters) (c : Conn) (n : ℕ)
    → length c.input ≤ n
    → Falls n (on_poll alive env k c)
unfolding on_poll
on_poll-Falls zero env k c n h = tt
on_poll-Falls (suc alive) env k c n h = read-Falls env k (record c { alive = alive }) c.input n h

round-Falls :
    (env : Env) (k : Counters) (c : Conn) (n : ℕ) → length c.input ≤ n → Falls n (round env k c)
unfolding round
round-Falls env k c n h = on_poll-Falls c.alive env k c n h

-- Fuel above the length of the input is enough, and more of it gives the same result.
abbrev Agree :
    (Counters → Conn → Option (Counters × Conn))
    → (Counters → Conn → Option (Counters × Conn))
    → Counters
    → Conn
    → Type 0
Agree f g k c = (r : Counters × Conn) × (f k c ≡ some r) × (g k c ≡ some r)

after-Agree :
    (f g : Counters → Conn → Option (Counters × Conn)) (n : ℕ) (r : Next)
    → Falls n r
    → ((k : Counters) (c : Conn) → length c.input < n → Agree f g k c)
    → (s : Counters × Conn) × (after f r ≡ some s) × (after g r ≡ some s)
after-Agree f g n (go k c) h agree = agree k c h
after-Agree f g n (stop k c) h agree = ((k, c), refl, refl)

loop-Agree :
    (n fuel more : ℕ) (env : Env) (k : Counters) (c : Conn)
    → length c.input ≤ n
    → n ≤ fuel
    → n ≤ more
    → Agree (loop (suc fuel) env) (loop (suc more) env) k c
unfolding loop
loop-Agree zero fuel more env k c h hf hm =
    after-Agree _ _ zero (round env k c) (round-Falls env k c zero h)
      (λ k' c' l. absurd (omega arith))
loop-Agree (suc n) zero more env k c h hf hm = absurd (omega arith)
loop-Agree (suc n) (suc fuel) zero env k c h hf hm = absurd (omega arith)
loop-Agree (suc n) (suc fuel) (suc more) env k c h hf hm =
    after-Agree _ _ (suc n) (round env k c) (round-Falls env k c (suc n) h)
      λ k' c' l. loop-Agree n fuel more env k' c' (omega arith) (omega arith) (omega arith)

-- With the fuel of `handler`, or any more, the loop ends, and with the same result: the handler
-- returns after finitely many commands, whatever the peer sends.
pub redis_loop_total :
    (env : Env) (k : Counters) (c : Conn) (fuel : ℕ)
    → fuel_for c ≤ fuel
    → (r : Counters × Conn) × (loop fuel env k c ≡ some r) × (loop (fuel_for c) env k c ≡ some r)
redis_loop_total env k c zero h = absurd (omega arith)
redis_loop_total env k c (suc fuel) h =
    loop-Agree (length c.input) fuel (length c.input) env k c (omega arith) (omega arith)
      (omega arith)

after_mono :
    (f g : Counters → Conn → Option (Counters × Conn)) (n : Next) {r : Counters × Conn}
    → ((k : Counters) (c : Conn) → f k c ≡ some r → g k c ≡ some r)
    → after f n ≡ some r
    → after g n ≡ some r
after_mono f g (go k c) h e = h k c e
after_mono f g (stop k c) h e = e

loop_mono :
    (fuel extra : ℕ) (env : Env) (k : Counters) (c : Conn) {r : Counters × Conn}
    → loop fuel env k c ≡ some r
    → loop (fuel + extra) env k c ≡ some r
unfolding loop
loop_mono zero extra env k c e = cc
loop_mono (suc fuel) extra env k c e = rw suc-add (
    after_mono (loop fuel env) (loop (fuel + extra) env) (round env k c)
      (λ k' c' e'. loop_mono fuel extra env k' c' e') e)

-- A result with any fuel is the result with `handler`'s fuel.
pub loop_same :
    (env : Env) (k : Counters) (c : Conn) (fuel : ℕ) {r : Counters × Conn}
    → loop fuel env k c ≡ some r
    → loop (fuel_for c) env k c ≡ some r
loop_same env k c fuel e =
    let (r', more, enough) = redis_loop_total env k c (fuel + fuel_for c) (omega arith) in
    enough ∙ sym more ∙ loop_mono fuel (fuel_for c) env k c e
