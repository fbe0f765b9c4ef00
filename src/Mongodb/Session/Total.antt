-- ===== src/Mongodb/Session/Total.antt =====
-- No message makes the handler index or slice out of range, and its loop ends.
use white_toyota_tacoma.Common.{
  ℕ, zero, suc, ◌+◌, ◌≤◌, ◌≡◌, ◌≢◌, refl, inl, inr, Option, none, some, ltb, length, drop, arith,
  Bool-cases, length-drop, ltb→le, ◌<◌,
}
use white_toyota_tacoma.Common.Int.{ℤ}
use white_toyota_tacoma.Common.Bytes.{Bytes, index_byte, index_byte-lt}
use white_toyota_tacoma.Common.Bytes.Safe.{slice-eq-ok, slice_from-eq-ok}
use white_toyota_tacoma.Common.Result.{err, panic}
use white_toyota_tacoma.Conn.{Conn, M, ◌>>=◌, ◌>>◌, pure, and_then, poll_within}
use white_toyota_tacoma.Conn.Loop.{loop, fuel_for, Falls, Takes-Falls, loop_total}
use white_toyota_tacoma.Conn.Safe.{
  Safely, done, Safely-Takes, Safely-ne-panic, bind-Safely, Safely-behind, send-Safely,
}
use white_toyota_tacoma.Mongodb.Bson.Safety.{parse_bson_doc_total}
use white_toyota_tacoma.Mongodb.Message.{Header, read_message}
use white_toyota_tacoma.Mongodb.Message.Safe.{read_message-Safely}
use white_toyota_tacoma.Mongodb.Reply.{send_op_reply, send_op_msg_reply}
use white_toyota_tacoma.Mongodb.Sections.{Found}
use white_toyota_tacoma.Mongodb.Sections.Safety.{sections_total}
use white_toyota_tacoma.Mongodb.Session.{
  Env, reply_query, on_collection, on_name, on_op_query, log_user, capture_auth, reply_msg,
  on_found, on_op_msg, is_op, is_auth, is_legacy, user_of, on_message, on_poll, round, handler,
}

-- A message whose parts are all in place goes on.
answer-Safely :
    (k n : ℕ) (m : M (Unit {0})) (c : Conn)
    → Safely k n (m c)
    → Safely k n ((m >> pure (some tt)) c)
answer-Safely k n m c h = bind-Safely k n m _ c h (λ u c' l. done l)

module _ (k n : ℕ) (env : Env) (id : ℤ) where
  on_collection-Safely :
      (payload : Bytes) (at : ℕ) (collection : Bytes) (c : Conn)
      → length c.input + k ≤ n
      → Safely k n (on_collection env id payload at collection c)
  unfolding on_collection reply_query send_op_reply
  on_collection-Safely payload at collection c h =
      elim (Bool-cases (ltb (length payload) (at + 8))) [
        | inl short ↦ rw short (done h)
        | inr long ↦
            let (r, e, _) = parse_bson_doc_total (drop (at + 8) payload) in
            rw (long, slice_from-eq-ok payload (at + 8) (ltb→le _ _ long))
              (rw e (send-Safely k n _ _ h))
      ]

  on_name-Safely :
      (payload : Bytes) (o : Option ℕ) (c : Conn)
      → 4 ≤ length payload
      → ((i : ℕ) → o ≡ some i → i < length (drop 4 payload))
      → length c.input + k ≤ n
      → Safely k n (on_name env id payload o c)
  unfolding on_name
  on_name-Safely payload none c h l g = done g
  on_name-Safely payload (some i) c h l g =
      rw
        (slice-eq-ok payload 4 (4 + i) (omega arith)
          (omega (arith, l i refl, length-drop 4 payload)))
        (on_collection-Safely payload (4 + i + 1) _ c g)

  on_op_query-Safely :
      (payload : Bytes) (c : Conn)
      → length c.input + k ≤ n
      → Safely k n (on_op_query env id payload c)
  unfolding on_op_query
  on_op_query-Safely payload c h = elim (Bool-cases (ltb (length payload) 4)) [
    | inl short ↦ rw short (done h)
    | inr long ↦
        let enough : 4 ≤ length payload = ltb→le _ _ long in
        rw (long, slice_from-eq-ok payload 4 enough)
          (on_name-Safely payload (index_byte (drop 4 payload) 0) c enough
            (λ i e. index_byte-lt (drop 4 payload) 0 e) h)
  ]

  log_user-Safely :
      (command : Bytes) (o : Option Bytes) (c : Conn)
      → length c.input + k ≤ n
      → Safely k n (log_user env command o c)
  unfolding log_user
  log_user-Safely command none c h = done h
  log_user-Safely command (some user) c h = done h

  capture_auth-Safely :
      (found : Found) (c : Conn) → length c.input + k ≤ n → Safely k n (capture_auth env found c)
  unfolding capture_auth
  capture_auth-Safely found c h = elim (Bool-cases (is_auth found.command)) [
    | inl e ↦ rw e (log_user-Safely found.command (user_of found.doc) c h)
    | inr e ↦ rw e (done h)
  ]

  on_found-Safely :
      (found : Found) (c : Conn) → length c.input + k ≤ n → Safely k n (on_found env id found c)
  unfolding on_found reply_msg send_op_msg_reply
  on_found-Safely found c h =
      bind-Safely k n (capture_auth env found) _ _ (capture_auth-Safely found _ h)
        λ u c' l. send-Safely k n _ c' l

  on_op_msg-Safely :
      (payload : Bytes) (c : Conn)
      → length c.input + k ≤ n
      → Safely k n (on_op_msg env id payload c)
  unfolding on_op_msg
  on_op_msg-Safely payload c h = elim (Bool-cases (ltb (length payload) 4)) [
    | inl short ↦ rw short (done h)
    | inr long ↦
        let (found, e, _) = sections_total env.table payload (length payload) (omega arith) in
        rw (long, e) (on_found-Safely found c h)
  ]

on_message-Safely :
    (k n : ℕ) (env : Env) (p : Header × Bytes) (c : Conn)
    → length c.input + k ≤ n
    → Safely k n (on_message env p c)
unfolding on_message
on_message-Safely k n env (hdr, payload) c h = elim (Bool-cases (is_op hdr.op_code 2004)) [
  | inl q ↦ rw q (
      answer-Safely k n (on_op_query env hdr.request_id payload) c
        (on_op_query-Safely k n env hdr.request_id payload c h))
  | inr q ↦ rw q (elim (Bool-cases (is_op hdr.op_code 2013)) [
    | inl m ↦ rw m (
        answer-Safely k n (on_op_msg env hdr.request_id payload) c
          (on_op_msg-Safely k n env hdr.request_id payload c h))
    | inr m ↦ rw m (elim (Bool-cases (is_legacy hdr.op_code)) [
      | inl l ↦ rw l (done h)
      | inr l ↦ rw l (done h)
    ])
  ])
]

read-Safely :
    (env : Env) (c : Conn) → Safely 16 (length c.input) ((read_message >>= on_message env) c)
read-Safely env c =
    bind-Safely 16 (length c.input) read_message (on_message env) c (read_message-Safely c)
      λ p c' h. on_message-Safely 16 (length c.input) env p c' h

polled-Safely :
    (env : Env) (c : Conn) (alive : ℕ)
    → Safely 0 (length c.input) (and_then (poll_within alive c) (on_poll env))
unfolding on_poll
polled-Safely env c zero = done (omega arith)
polled-Safely env c (suc n) = Safely-behind (omega arith) (read-Safely env (record c { alive = n }))

polled-Falls :
    (env : Env) (c : Conn) (alive : ℕ)
    → Falls (length c.input) (and_then (poll_within alive c) (on_poll env))
unfolding on_poll
polled-Falls env c zero = tt
polled-Falls env c (suc n) = Takes-Falls (Safely-Takes (read-Safely env (record c { alive = n })))

pub round-Falls : (env : Env) (u : Unit {0}) (c : Conn) → Falls (length c.input) (round env u c)
unfolding round
round-Falls env u c = polled-Falls env c c.alive

-- Whatever the peer sends, no round of the handler indexes or slices out of range: it goes on,
-- returns, or stops at an error of the connection.
pub mongo_round-ne-panic : (env : Env) (c : Conn) → (round env tt c).0 ≢ err panic
unfolding round
mongo_round-ne-panic env c = Safely-ne-panic (polled-Safely env c c.alive)

-- The loop of the handler ends with the fuel that it is given, whatever the peer sends, and more
-- fuel would not change its result.
pub mongo_loop_total :
    (env : Env) (c : Conn) (fuel : ℕ)
    → fuel_for c ≤ fuel
    → (d : Conn) × (loop fuel (round env) tt c ≡ some d) × (handler env c ≡ some d)
unfolding handler
mongo_loop_total env c = loop_total (round env) (round-Falls env) tt c
