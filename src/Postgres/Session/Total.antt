-- ===== src/Postgres/Session/Total.antt =====
-- The loop over messages ends, whatever the peer sends.
use white_toyota_tacoma.Common.{
  ℕ, zero, suc, ◌+◌, ◌≤◌, ◌≡◌, inl, inr, some, ◌==◌, length, Bool-cases,
}
use white_toyota_tacoma.Common.Bytes.{Bytes}
use white_toyota_tacoma.Conn.{Conn, M, ◌>>◌, pure, and_then, poll_within}
use white_toyota_tacoma.Conn.Progress.{Takes, took, bind-Takes}
use white_toyota_tacoma.Conn.Loop.{loop, fuel_for, Falls, Takes-Falls, loop_total}
use white_toyota_tacoma.Postgres.Message.{
  read_message, send_ready_for_query, send_empty_query_response, send_error_response,
}
use white_toyota_tacoma.Postgres.Message.RoundTrip.{
  read_message-Takes, send_ready_for_query-Takes, send_empty_query_response-Takes,
  send_error_response-Takes,
}
use white_toyota_tacoma.Postgres.Startup.{Account}
use white_toyota_tacoma.Postgres.Session.{
  Env, type_query, type_terminate, is_extended, idle, on_message, on_poll, round,
}

-- A reply, the prompt, and then the loop goes on.
prompt-Takes :
    (k n : ℕ) (m : M (Unit {0})) (a : Account) (c : Conn)
    → Takes k n (m c)
    → Takes k n ((m >> (send_ready_for_query idle >> pure (some a))) c)
prompt-Takes k n m a c h = bind-Takes k n m _ c h λ u c' h'.
    bind-Takes k n (send_ready_for_query idle) _ c' (send_ready_for_query-Takes k n idle c' h')
      λ u d l. took l

on_message-Takes :
    (k n : ℕ) (env : Env) (a : Account) (t : ℕ) (payload : Bytes) (c : Conn)
    → length c.input + k ≤ n
    → Takes k n (on_message env a (t, payload) c)
unfolding on_message
on_message-Takes k n env a t payload c h = elim (Bool-cases (t == type_query)) [
  | inl q ↦
      rw q
        (prompt-Takes k n send_empty_query_response a _ (send_empty_query_response-Takes k n _ h))
  | inr q ↦ rw q (elim (Bool-cases (t == type_terminate)) [
    | inl x ↦ rw x (took h)
    | inr x ↦ rw x (elim (Bool-cases (is_extended t)) [
      | inl e ↦
          rw e
            (prompt-Takes k n (send_error_response _ _) a c (send_error_response-Takes k n _ _ c h))
      | inr e ↦ rw e (took h)
    ])
  ])
]

polled-Falls :
    (env : Env) (a : Account) (c : Conn) (alive : ℕ)
    → Falls (length c.input) (and_then (poll_within alive c) (on_poll env a))
unfolding on_poll
polled-Falls env a c zero = tt
polled-Falls env a c (suc n) =
    let d : Conn = record c { alive = n } in
    Takes-Falls (
      bind-Takes 5 (length c.input) read_message (on_message env a) d (read_message-Takes d)
        λ p c' h. on_message-Takes 5 (length c.input) env a p.0 p.1 c' h)

pub round-Falls : (env : Env) (a : Account) (c : Conn) → Falls (length c.input) (round env a c)
unfolding round
round-Falls env a c = polled-Falls env a c c.alive

-- The loop of the handler ends with the fuel that it is given, whatever the peer sends, and more
-- fuel would not change its result.
pub postgres_loop_total :
    (env : Env) (a : Account) (c : Conn) (fuel : ℕ)
    → fuel_for c ≤ fuel
    → (d : Conn) × (loop fuel (round env) a c ≡ some d)
      × (loop (fuel_for c) (round env) a c ≡ some d)
postgres_loop_total env = loop_total (round env) (round-Falls env)
