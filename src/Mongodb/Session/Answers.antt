-- ===== src/Mongodb/Session/Answers.antt =====
-- `handleOpMsg` and `handleOpQuery` answer what a client sends as specified.
use white_toyota_tacoma.Common.{
  ℕ, suc, ◌+◌, ◌≡◌, refl, ap, ◌∙◌, subst, inl, inr, false, none, some, Option, List, [], ◌∷◌, ◌++◌,
  ltb, length, arith, append_assoc, append-nil, length-append, le→ltb, Bool-cases, if◌then◌else◌,
}
use white_toyota_tacoma.Common.Int.{ℤ}
use white_toyota_tacoma.Common.Bytes.{Bytes, Lacks, codes, index_byte-append, slice_from}
use white_toyota_tacoma.Common.Bytes.Behind.{slice-behind, slice_from-behind}
use white_toyota_tacoma.Common.Result.{ok}
use white_toyota_tacoma.Capture.{Event}
use white_toyota_tacoma.Conn.{Conn}
use white_toyota_tacoma.Mongodb.Bson.{parse_bson_doc}
use white_toyota_tacoma.Mongodb.Bson.Fields.{Field, wire_fields, wire_doc, put_all}
use white_toyota_tacoma.Mongodb.Bson.Lookup.{extract_string-put_all}
use white_toyota_tacoma.Mongodb.Bson.RoundTrip.{parse_bson_doc-wire_doc}
use white_toyota_tacoma.Mongodb.Message.{signed32}
use white_toyota_tacoma.Mongodb.Reply.{
  op_msg_message, op_reply_message, send_op_reply, send_op_msg_reply,
}
use white_toyota_tacoma.Mongodb.Sections.{Found}
use white_toyota_tacoma.Mongodb.Sections.Captured.{sections-wire_doc}
use white_toyota_tacoma.Mongodb.Session.{
  Env, msg_event, query_event, query_reply, reply_doc, reply_query, on_collection, on_name,
  on_op_query, user_of, log_user, capture_auth, reply_msg, on_found, on_op_msg, is_auth,
}
use white_toyota_tacoma.Mongodb.Session.Spec.{
  Body, fields, flags, msg, query, payload_of, IsDoc, login, command_of, logged, reply,
}

log_user-answers :
    (env : Env) (command : Bytes) (o : Option Bytes) (c : Conn)
    → log_user env command o c ≡ (ok tt, record c { events = c.events ++ login env command o })
unfolding log_user
log_user-answers env command none c = rw append-nil
log_user-answers env command (some user) c = refl

capture_auth-answers :
    (env : Env) (found : Found) (c : Conn)
    → capture_auth env found c ≡ (
      ok tt,
      record c {
        events =
            c.events
            ++ (if is_auth found.command then login env found.command (user_of found.doc) else []);
      },
    )
unfolding capture_auth
capture_auth-answers env found c = elim (Bool-cases (is_auth found.command)) [
  | inl e ↦ rw e (log_user-answers env found.command (user_of found.doc) c)
  | inr e ↦ rw e (rw append-nil)
]

-- The events for what was found in an OP_MSG, where the document names this user, and the reply.
found_events : Env → Found → Option Bytes → List Event
found_events env found user =
    msg_event env found ∷ (if is_auth found.command then login env found.command user else [])

on_found-answers :
    (env : Env) (id : ℤ) (found : Found) (c : Conn) (n : ℕ)
    → on_found env id found (record c { accepts = suc n }) ≡ (
      ok tt,
      record c {
        output =
            c.output
            ++ op_msg_message
                (env.order c.output)
                id
                (reply_doc env found.command (env.now c.output));
        accepts = n;
        events = c.events ++ found_events env found (user_of found.doc);
      },
    )
unfolding on_found reply_msg send_op_msg_reply found_events
on_found-answers env id found c n =
    rw
      (capture_auth-answers env found
        (record c { accepts = suc n; events = c.events ++ msg_event env found ∷ [] }))
      (rw (
        append_assoc c.events (msg_event env found ∷ [])
          (if is_auth found.command then login env found.command (user_of found.doc) else [])))

pub on_op_msg-answers :
    (env : Env) (id : ℕ) (b : Body) (c : Conn) (n : ℕ)
    → IsDoc (fields b)
    → on_op_msg env (signed32 id) (payload_of (msg id b)) (record c { accepts = suc n }) ≡ (
      ok tt,
      record c {
        output = c.output ++ reply env c.output (msg id b);
        accepts = n;
        events = c.events ++ logged env (msg id b);
      },
    )
unfolding on_op_msg user_of found_events
on_op_msg-answers env id b c n h =
    let found : Found = record { command = command_of env b; doc = some (put_all (fields b) []) } in
    let long : ltb (length (payload_of (msg id b))) 4 ≡ false = le→ltb _ _ (omega arith) in
    rw long (
      rw
        ((sections-wire_doc env.table 0 0 0 0 b.key b.field b.more 2 0 0 h.0 h.1 (λ e. omega arith)
          (λ e. omega arith)).0)
        (on_found-answers env (signed32 id) found c n
          ∙ ap
              (λ user. (
                ok tt,
                record c {
                  output = c.output ++ reply env c.output (msg id b);
                  accepts = n;
                  events = c.events ++ found_events env found user;
                },
              ))
              (extract_string-put_all (codes "user") (fields b))))

parsed-wire_doc :
    (fs : List (Bytes × Field))
    → IsDoc fs
    → parse_bson_doc (wire_doc fs) ≡ ok (some (put_all fs [], 5 + length (wire_fields fs)))
parsed-wire_doc fs h =
    subst (λ raw. parse_bson_doc raw ≡ ok (some (put_all fs [], 5 + length (wire_fields fs))))
      (append-nil (wire_doc fs)) (parse_bson_doc-wire_doc fs [] h.0 h.1)

on_collection-answers :
    (env : Env) (id : ℤ) (collection pre : Bytes) (at : ℕ) (fs : List (Bytes × Field)) (c : Conn)
    (n : ℕ)
    → length pre ≡ at + 8
    → IsDoc fs
    → on_collection env id (pre ++ wire_doc fs) at collection (record c { accepts = suc n }) ≡ (
      ok tt,
      record c {
        output =
            c.output
            ++ op_reply_message (env.order c.output) id (query_reply env collection c.output);
        accepts = n;
        events = c.events ++ query_event env collection (some (put_all fs [])) ∷ [];
      },
    )
unfolding on_collection reply_query send_op_reply
on_collection-answers env id collection pre at fs c n place h =
    rw (long, tail) (rw (parsed-wire_doc fs h))
  where
    long : ltb (length (pre ++ wire_doc fs)) (at + 8) ≡ false
    long = le→ltb _ _ (omega (arith, length-append pre (wire_doc fs), place))

    tail : slice_from (pre ++ wire_doc fs) (at + 8) ≡ ok (wire_doc fs)
    tail =
        subst (λ k. slice_from (pre ++ wire_doc fs) k ≡ ok (wire_doc fs)) place
          (slice_from-behind pre (wire_doc fs))

pub on_op_query-answers :
    (env : Env) (id : ℕ) (collection counts : Bytes) (fs : List (Bytes × Field)) (c : Conn) (n : ℕ)
    → Lacks 0 collection
    → length counts ≡ 8
    → IsDoc fs
    → on_op_query env
        (signed32 id)
        (payload_of (query id collection counts fs))
        (record c { accepts = suc n })
      ≡ (
        ok tt,
        record c {
          output = c.output ++ reply env c.output (query id collection counts fs);
          accepts = n;
          events = c.events ++ logged env (query id collection counts fs);
        },
      )
unfolding on_op_query on_name
on_op_query-answers env id collection counts fs c n l e h =
    rw (long, behind_flags)
      (rw (index_byte-append 0 collection (counts ++ wire_doc fs) l) (
        rw (slice-behind (flags []) collection (0 ∷ (counts ++ wire_doc fs))) (
          subst
            (λ raw.
              on_collection env (signed32 id) raw (4 + length collection + 1) collection
                (record c { accepts = suc n })
              ≡ (
                ok tt,
                record c {
                  output = c.output ++ reply env c.output (query id collection counts fs);
                  accepts = n;
                  events = c.events ++ logged env (query id collection counts fs);
                },
              ))
            grouped
            (on_collection-answers env (signed32 id) collection pre (4 + length collection + 1) fs c
              n place h))))
  where
    payload : Bytes
    payload = payload_of (query id collection counts fs)

    pre : Bytes
    pre = flags (collection ++ 0 ∷ counts)

    long : ltb (length payload) 4 ≡ false
    long = le→ltb _ _ (omega arith)

    behind_flags : slice_from payload 4 ≡ ok (collection ++ 0 ∷ (counts ++ wire_doc fs))
    behind_flags = slice_from-behind (flags []) (collection ++ 0 ∷ (counts ++ wire_doc fs))

    place : length pre ≡ 4 + length collection + 1 + 8
    place = omega (arith, length-append collection (0 ∷ counts), e)

    grouped : pre ++ wire_doc fs ≡ payload
    grouped = ap flags (append_assoc collection (0 ∷ counts) (wire_doc fs))
