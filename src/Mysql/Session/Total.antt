-- ===== src/Mysql/Session/Total.antt =====
-- The loop over commands ends, whatever the peer sends.
use white_toyota_tacoma.Common.{
  ℕ, zero, suc, ◌+◌, ◌≤◌, ◌≡◌, inl, inr, Option, some, [], ◌∷◌, ◌==◌, length, Bool-cases,
}
use white_toyota_tacoma.Common.Bytes.{Bytes}
use white_toyota_tacoma.Conn.{Conn, M, ◌>>◌, pure, send, and_then, poll_within}
use white_toyota_tacoma.Conn.Progress.{Takes, took, bind-Takes, send-Takes}
use white_toyota_tacoma.Mysql.Packet.{
  read_packet, write_packet, send_ok, send_empty_result_set, next_seq, ok_payload, eof_payload,
}
use white_toyota_tacoma.Mysql.Packet.RoundTrip.{read_packet-Takes}
use white_toyota_tacoma.Mysql.Handshake.{Login}
use white_toyota_tacoma.Mysql.Session.{Env, on_command, on_poll, round}
use white_toyota_tacoma.Conn.Loop.{loop, fuel_for, Falls, Takes-Falls, loop_total}

write_packet-Takes :
    (k n seq : ℕ) (payload : Bytes) (c : Conn)
    → length c.input + k ≤ n
    → Takes k n (write_packet seq payload c)
unfolding write_packet
write_packet-Takes k n seq payload c h =
    bind-Takes k n (send _) _ c (send-Takes k n _ c h) λ u c' h'. send-Takes k n payload c' h'

-- A reply, and then the loop goes on.
then-Takes :
    (k n : ℕ) (m : M (Unit {0})) (l : Option Login) (c : Conn)
    → Takes k n (m c)
    → Takes k n ((m >> pure l) c)
then-Takes k n m l c h = bind-Takes k n m (λ _. pure l) c h λ u c' h'. took h'

send_ok-Takes : (k n seq : ℕ) (c : Conn) → length c.input + k ≤ n → Takes k n (send_ok seq c)
unfolding send_ok
send_ok-Takes k n seq c h = write_packet-Takes k n seq ok_payload c h

send_empty_result_set-Takes :
    (k n seq : ℕ) (c : Conn) → length c.input + k ≤ n → Takes k n (send_empty_result_set seq c)
unfolding send_empty_result_set
send_empty_result_set-Takes k n seq c h =
    bind-Takes k n (write_packet seq (0 ∷ [])) _ c (write_packet-Takes k n seq (0 ∷ []) c h)
      λ u c' h'. write_packet-Takes k n (next_seq seq) eof_payload c' h'

on_command-Takes :
    (k n : ℕ) (env : Env) (l : Login) (seq : ℕ) (payload : Bytes) (c : Conn)
    → length c.input + k ≤ n
    → Takes k n (on_command env l seq payload c)
unfolding on_command
on_command-Takes k n env l seq [] c h = took h
on_command-Takes k n env l seq (b ∷ arg) c h = elim (Bool-cases (b == 0x01)) [
  | inl q ↦ rw q (took h)
  | inr q ↦ rw q (elim (Bool-cases (b == 0x03)) [
    | inl r ↦ rw r (
        then-Takes k n (send_empty_result_set (next_seq seq)) (some l) _
          (send_empty_result_set-Takes k n (next_seq seq) _ h))
    | inr r ↦ rw r (elim (Bool-cases (b == 0x02)) [
      | inl s ↦ rw s (then-Takes k n (send_ok (next_seq seq)) _ c (send_ok-Takes k n _ c h))
      | inr s ↦ rw s (then-Takes k n (send_ok (next_seq seq)) _ c (send_ok-Takes k n _ c h))
    ])
  ])
]

polled-Falls :
    (env : Env) (l : Login) (c : Conn) (alive : ℕ)
    → Falls (length c.input) (and_then (poll_within alive c) (on_poll env l))
unfolding on_poll
polled-Falls env l c zero = tt
polled-Falls env l c (suc n) =
    let d : Conn = record c { alive = n } in
    Takes-Falls (
      bind-Takes 4 (length c.input) read_packet (λ p. on_command env l p.0 p.1) d
        (read_packet-Takes d) λ p c' h. on_command-Takes 4 (length c.input) env l p.0 p.1 c' h)

pub round-Falls : (env : Env) (l : Login) (c : Conn) → Falls (length c.input) (round env l c)
unfolding round
round-Falls env l c = polled-Falls env l c c.alive

-- The loop of the handler ends with the fuel that it is given, whatever the peer sends, and more
-- fuel would not change its result.
pub mysql_loop_total :
    (env : Env) (l : Login) (c : Conn) (fuel : ℕ)
    → fuel_for c ≤ fuel
    → (d : Conn) × (loop fuel (round env) l c ≡ some d)
      × (loop (fuel_for c) (round env) l c ≡ some d)
mysql_loop_total env = loop_total (round env) (round-Falls env)
