-- ===== src/Mysql/Session/Answers.antt =====
-- Every command is answered as specified.
use native.Mathlib.Nat.{zero-add, suc-add}
use white_toyota_tacoma.Common.{
  ℕ, suc, ◌+◌, ◌%◌, ◌/◌, ◌≤◌, ◌≡◌, refl, ap, ◌∙◌, false, some, List, [], ◌∷◌, ◌++◌, ◌==◌, length,
  arith, All, append_assoc, append-nil,
}
use white_toyota_tacoma.Common.Bytes.{Bytes, truncate-take, read_full}
use white_toyota_tacoma.Common.Result.{ok}
use white_toyota_tacoma.Capture.{Event}
use white_toyota_tacoma.Conn.{Conn}
use white_toyota_tacoma.Conn.Loop.{loop, after}
use white_toyota_tacoma.Mysql.Packet.{
  max_packet_size, packet, read_packet, write_packet, send_ok, send_empty_result_set, next_seq,
  ok_payload, eof_payload,
}
use white_toyota_tacoma.Mysql.Packet.RoundTrip.{read_packet-packet}
use white_toyota_tacoma.Mysql.Handshake.{Login}
use white_toyota_tacoma.Mysql.Session.{Env, query_event, on_command, on_poll, round}
use white_toyota_tacoma.Mysql.Session.Spec.{
  Request, query, init_db, other, body, IsRequest, wire, next_login, logged, all_logged, reply,
  replies, writes_for, writes,
}

write_packet-eq-ok :
    (seq : ℕ) (payload : Bytes) (c : Conn) (n : ℕ)
    → write_packet seq payload (record c { accepts = suc (suc n) })
      ≡ (ok tt, record c { output = c.output ++ packet seq payload; accepts = n })
unfolding write_packet
write_packet-eq-ok seq payload c n = rw (
    append_assoc c.output
      (length payload % 256 ∷ length payload / 256 % 256 ∷ length payload / 65536 % 256 ∷ seq ∷ [])
      payload)

pub send_ok-eq-ok :
    (seq : ℕ) (c : Conn) (n : ℕ)
    → send_ok seq (record c { accepts = suc (suc n) })
      ≡ (ok tt, record c { output = c.output ++ packet seq ok_payload; accepts = n })
unfolding send_ok
send_ok-eq-ok seq c n = write_packet-eq-ok seq ok_payload c n

send_empty_result_set-eq-ok :
    (seq : ℕ) (c : Conn) (n : ℕ)
    → send_empty_result_set seq (record c { accepts = suc (suc (suc (suc n))) }) ≡ (
      ok tt,
      record c {
        output = c.output ++ (packet seq (0 ∷ []) ++ packet (next_seq seq) eof_payload);
        accepts = n;
      },
    )
unfolding send_empty_result_set
send_empty_result_set-eq-ok seq c n = rw (write_packet-eq-ok seq (0 ∷ []) c (suc (suc n))) (
    rw
      (write_packet-eq-ok (next_seq seq) eof_payload
        (record c { output = c.output ++ packet seq (0 ∷ []) }) n)
      (rw (append_assoc c.output (packet seq (0 ∷ [])) (packet (next_seq seq) eof_payload))))

-- A command is answered as specified.
on_command-answers :
    (env : Env) (l : Login) (r : Request) (c : Conn) (n : ℕ)
    → IsRequest r
    → on_command env l 0 (body r) (record c { accepts = writes_for r n }) ≡ (
      ok (some (next_login l r)),
      record c { output = c.output ++ reply r; accepts = n; events = c.events ++ logged env l r },
    )
unfolding on_command
on_command-answers env l (query q) c n h =
    rw
      (
        send_empty_result_set-eq-ok 1 (record c { events = c.events ++ query_event env l q ∷ [] })
            n,
        truncate-take q 2048,
      )
      refl
on_command-answers env l (init_db db) c n h = rw (send_ok-eq-ok 1 c n, append-nil)
on_command-answers env l (other b arg) c n h =
    let one : (b == 0x01) ≡ false = ground (arith, h.1) in
    let two : (b == 0x02) ≡ false = ground (arith, h.2) in
    let three : (b == 0x03) ≡ false = ground (arith, h.3) in
    rw (one, three, two) (rw (send_ok-eq-ok 1 c n, append-nil))

body-le : (r : Request) → IsRequest r → length (body r) ≤ max_packet_size
body-le (query q) h = h
body-le (init_db db) h = h
body-le (other b arg) h = h.0

round-answers :
    (env : Env) (l : Login) (r : Request) (rest out : Bytes) (n alive : ℕ) (events : List Event)
    → IsRequest r
    → round env l (record {
      input = packet 0 (body r) ++ rest;
      output = out;
      accepts = writes_for r n;
      alive = suc alive;
      events = events;
    })
      ≡ (
        ok (some (next_login l r)),
        record {
          input = rest;
          output = out ++ reply r;
          accepts = n;
          alive = alive;
          events = events ++ logged env l r;
        },
      )
unfolding round on_poll
round-answers env l r rest out n alive events h =
    let c : Conn = record {
      input = [];
      output = out;
      accepts = writes_for r n;
      alive = alive;
      events = events;
    } in
    rw (read_packet-packet 0 (body r) rest c (body-le r h))
      (on_command-answers env l r (record c { input = rest; accepts = 0 }) n h)

-- The whole loop, up to where the client closes the connection.
pub loop-answers :
    (env : Env) (l : Login) (rs : List Request) (out : Bytes) (n alive : ℕ) (events : List Event)
    → All IsRequest rs
    → loop (suc (length rs)) (round env) l (record {
      input = wire rs;
      output = out;
      accepts = writes rs n;
      alive = suc (length rs + alive);
      events = events;
    })
      ≡ some (record {
        input = [];
        output = out ++ replies rs;
        accepts = n;
        alive = alive;
        events = events ++ all_logged env l rs;
      })
unfolding loop
loop-answers env l [] out n alive events h =
    rw (zero-add, append-nil, append-nil) (unfold round on_poll read_packet read_full in refl)
loop-answers env l (r ∷ rs) out n alive events h = rw suc-add (
    ap (after (loop (suc (length rs)) (round env)))
      (round-answers env l r (wire rs) out (writes rs n) (suc (length rs + alive)) events h.0)
    ∙ loop-answers env (next_login l r) rs (out ++ reply r) n alive (events ++ logged env l r) h.1
    ∙ rw (
      append_assoc out (reply r) (replies rs),
      append_assoc events (logged env l r) (all_logged env (next_login l r) rs),
    ))
