-- ===== src/Postgres/Session/Answers.antt =====
-- Every message is answered as specified.
use native.Mathlib.Nat.{zero-add, suc-add}
use white_toyota_tacoma.Common.{
  ℕ, suc, ◌+◌, ◌≤◌, ◌≡◌, refl, ap, ◌∙◌, false, some, List, [], ◌∷◌, ◌++◌, ◌==◌, length, arith, All,
  append_assoc, append-nil,
}
use white_toyota_tacoma.Common.Bytes.{Bytes, truncate-take}
use white_toyota_tacoma.Common.Result.{ok}
use white_toyota_tacoma.Capture.{Event}
use white_toyota_tacoma.Conn.{Conn, ◌>>◌, pure}
use white_toyota_tacoma.Conn.Loop.{loop, after}
use white_toyota_tacoma.Postgres.Message.{
  max_msg_len, null_term_string, message, send_msg, send_ready_for_query, send_empty_query_response,
  send_error_response,
}
use white_toyota_tacoma.Postgres.Message.RoundTrip.{
  null_term_string-before_nul, read_message-message, read_message_nil,
}
use white_toyota_tacoma.Postgres.Startup.{Account}
use white_toyota_tacoma.Postgres.Session.{
  Env, query_event, idle, type_query, type_terminate, on_message, on_poll, round,
}
use white_toyota_tacoma.Postgres.Session.Spec.{
  Request, query, extended, unknown, type_of, body, IsRequest, wire, logged, all_logged, reply,
  replies, writes_for, writes,
}

-- A reply and the prompt.
reply-prompt :
    (a : Account) (t : ℕ) (b : Bytes) (c : Conn) (n : ℕ)
    → (send_msg t b >> (send_ready_for_query idle >> pure (some a)))
        (record c { accepts = suc (suc n) })
      ≡ (
        ok (some a),
        record c { output = c.output ++ (message t b ++ message 90 (idle ∷ [])); accepts = n },
      )
unfolding send_msg send_ready_for_query
reply-prompt a t b c n = rw (append_assoc c.output (message t b) (message 90 (idle ∷ [])))

on_message-answers :
    (env : Env) (a : Account) (r : Request) (c : Conn) (n : ℕ)
    → IsRequest r
    → on_message env a (type_of r, body r) (record c { accepts = writes_for r n }) ≡ (
      ok (some a),
      record c { output = c.output ++ reply r; accepts = n; events = c.events ++ logged env a r },
    )
unfolding on_message send_empty_query_response send_error_response
on_message-answers env a (query q) c n h =
    reply-prompt a 73 []
      (record c { events = c.events ++ query_event env a (null_term_string q) ∷ [] }) n
    ∙ rw (truncate-take (null_term_string q) 2048, null_term_string-before_nul q) refl
on_message-answers env a (extended t b) c n h =
    let no_query : (t == type_query) ≡ false = ground (arith, h.1) in
    let no_end : (t == type_terminate) ≡ false = ground (arith, h.1) in
    rw (no_query, no_end, h.1) (reply-prompt a 69 _ c n ∙ rw append-nil)
on_message-answers env a (unknown t b) c n h =
    let no_query : (t == type_query) ≡ false = ground (arith, h.2) in
    let no_end : (t == type_terminate) ≡ false = ground (arith, h.3) in
    rw (no_query, no_end, h.1) (rw (append-nil, append-nil))

body-le : (r : Request) → IsRequest r → length (body r) ≤ max_msg_len
body-le (query q) h = h
body-le (extended t b) h = h.0
body-le (unknown t b) h = h.0

round-answers :
    (env : Env) (a : Account) (r : Request) (rest out : Bytes) (n alive : ℕ) (events : List Event)
    → IsRequest r
    → round env a (record {
      input = message (type_of r) (body r) ++ rest;
      output = out;
      accepts = writes_for r n;
      alive = suc alive;
      events = events;
    })
      ≡ (
        ok (some a),
        record {
          input = rest;
          output = out ++ reply r;
          accepts = n;
          alive = alive;
          events = events ++ logged env a r;
        },
      )
unfolding round on_poll
round-answers env a r rest out n alive events h =
    let c : Conn = record {
      input = [];
      output = out;
      accepts = writes_for r n;
      alive = alive;
      events = events;
    } in
    rw (read_message-message (type_of r) (body r) rest c (body-le r h))
      (on_message-answers env a r (record c { input = rest; accepts = 0 }) n h)

-- The whole loop, up to where the client closes the connection.
pub loop-answers :
    (env : Env) (a : Account) (rs : List Request) (out : Bytes) (n alive : ℕ) (events : List Event)
    → All IsRequest rs
    → loop (suc (length rs)) (round env) a (record {
      input = wire rs;
      output = out;
      accepts = writes rs n;
      alive = suc (length rs + alive);
      events = events;
    })
      ≡ some (record {
        input = [];
        output = out ++ replies rs;
        accepts = n;
        alive = alive;
        events = events ++ all_logged env a rs;
      })
unfolding loop
loop-answers env a [] out n alive events h =
    let c : Conn = record {
      input = [];
      output = out;
      accepts = n;
      alive = alive;
      events = events;
    } in
    rw (zero-add, append-nil, append-nil) (unfold round on_poll in rw (read_message_nil c))
loop-answers env a (r ∷ rs) out n alive events h = rw (suc-add (length rs) alive) (
    ap (after (loop (suc (length rs)) (round env)))
      (round-answers env a r (wire rs) out (writes rs n) (suc (length rs + alive)) events h.0)
    ∙ loop-answers env a rs (out ++ reply r) n alive (events ++ logged env a r) h.1
    ∙ rw (
      append_assoc out (reply r) (replies rs),
      append_assoc events (logged env a r) (all_logged env a rs),
    ))
