-- ===== src/Mongodb/Session/AsExpected.antt =====
-- The events, documents and replies that the handler builds are the expected ones.
use mathlib.Core.Path.{fun_ext}
use white_toyota_tacoma.Common.{
  ℕ, ◌+◌, ◌%◌, ◌<◌, ◌≡◌, refl, ap, ◌∙◌, inl, inr, true, false, Option, none, some, List, [], ◌∷◌,
  ◌++◌, length, take, arith, All, Bool-cases, map,
}
use white_toyota_tacoma.Common.Int.{ℤ}
use white_toyota_tacoma.Common.Bytes.{Bytes, codes, truncate, truncate-take, le32}
use white_toyota_tacoma.Common.Json.{json_object}
use white_toyota_tacoma.Common.Utf8.{string_map}
use white_toyota_tacoma.Mongodb.Bson.{Value, Doc}
use white_toyota_tacoma.Mongodb.Json.{json_value, json_entries, json_marshal}
use white_toyota_tacoma.Mongodb.Bson.Fields.{put_all}
use white_toyota_tacoma.Mongodb.Bson.{string_of}
use white_toyota_tacoma.Mongodb.Bson.Lookup.{last_kept}
use white_toyota_tacoma.Mongodb.Encode.{Order, Entries, le64, bits}
use white_toyota_tacoma.Mongodb.Message.{signed32}
use white_toyota_tacoma.Mongodb.Reply.{
  build_info_doc, ok_doc, databases_doc, denied_doc, reply_body, doc_bytes, num_docs, is_master_doc,
  op_msg_message, op_reply_message,
}
use white_toyota_tacoma.Mongodb.Session.{
  Env, keep_visible, sanitize, query_event, msg_event, auth_event, opcode_event, is_command,
  query_reply, reply_doc,
}
use white_toyota_tacoma.Mongodb.Session.Spec.{
  command_of, fields, request_id, Request, msg, query, legacy, IsRequest, login, logged, all_logged,
  reply, replied,
}
use white_toyota_tacoma.Mongodb.Session.Expected.{
  message, raw_doc, asks_admin, reply_docs, visible, shown, value_text, doc_text, answer_in,
  answer_of, answer_doc, user_logged, events_of, all_events, answer_to, answered,
}

keep_visible-visible : (r : ℕ) → keep_visible r ≡ visible r
keep_visible-visible r = ground arith

sanitize-shown : (s : Bytes) → sanitize s ≡ shown s
unfolding sanitize shown
sanitize-shown s = ap (λ f. string_map f s) (fun_ext keep_visible-visible)

bits-signed32 : (id : ℕ) → id < 4294967296 → bits 4294967296 (signed32 id) ≡ id
bits-signed32 id h = ground arith

json_value-text : (v : Value) → json_value v ≡ value_text v
unfolding json_value value_text
json_value-text (Value.string s) = refl
json_value-text (Value.int32 n) = refl
json_value-text (Value.int64 n) = refl
json_value-text (Value.boolean true) = refl
json_value-text (Value.boolean false) = refl

json_entries-text : (d : Doc) → json_entries d ≡ map (λ e. (e.0, value_text e.1)) d
unfolding json_entries
json_entries-text [] = refl
json_entries-text ((key, v) ∷ d) = rw (json_value-text v, json_entries-text d)

json_marshal-text : (d : Doc) → json_marshal (some d) ≡ doc_text d
unfolding json_marshal doc_text
json_marshal-text d = ap json_object (json_entries-text d)

payload-text : (d : Doc) → truncate (json_marshal (some d)) 2048 ≡ take 2048 (doc_text d)
payload-text d = truncate-take (json_marshal (some d)) 2048 ∙ ap (take 2048) (json_marshal-text d)

reply_doc-answer :
    (env : Env) (command : Bytes) (now : ℤ)
    → reply_doc env command now ≡ answer_doc env now (answer_of command)
unfolding reply_doc answer_in is_master_doc build_info_doc ok_doc databases_doc denied_doc
reply_doc-answer env command now = ground arith

op_msg_message-expected :
    (order : Order) (id : ℕ) (d : Entries)
    → id < 4294967296
    → op_msg_message order (signed32 id) d ≡ message id 2013 (le32 0 ++ 0 ∷ raw_doc order d)
unfolding op_msg_message
op_msg_message-expected order id d h = rw (bits-signed32 id h) (
    ap
      (λ len.
        le32 (len % 4294967296)
        ++ (le32 0 ++ (le32 id ++ (le32 2013 ++ (le32 0 ++ 0 ∷ raw_doc order d)))))
      size)
  where
    size : 21 + length (raw_doc order d) ≡ 16 + length (le32 0 ++ 0 ∷ raw_doc order d)
    size = omega arith

login-expected :
    (env : Env) (command : Bytes) (user : Option Bytes)
    → login env command user ≡ user_logged env command user
unfolding auth_event
login-expected env command none = refl
login-expected env command (some user) = refl

logged-expected : (env : Env) (r : Request) → logged env r ≡ events_of env r
unfolding msg_event query_event opcode_event
logged-expected env (msg id b) = rw (
  sanitize-shown (command_of env b),
  payload-text (put_all (fields b) []),
  login-expected env (command_of env b) (string_of (last_kept (codes "user") (fields b))),
)
logged-expected env (query id collection counts fs) =
    rw (sanitize-shown collection, payload-text (put_all fs []))
logged-expected env (legacy id op body) = refl

op_reply_message-expected :
    (order : Order) (id : ℕ) (d : Option Entries)
    → id < 4294967296
    → op_reply_message order (signed32 id) d
      ≡ message id 1 (le32 8 ++ (le64 0 ++ (le32 0 ++ (le32 (num_docs d) ++ doc_bytes order d))))
unfolding op_reply_message reply_body
op_reply_message-expected order id d h = rw (bits-signed32 id h) (
    ap
      (λ len.
        le32 (len % 4294967296)
        ++ (le32 0
            ++ (le32 id
                ++ (le32 1
                    ++ (le32 8
                        ++ (le64 0 ++ (le32 0 ++ (le32 (num_docs d) ++ doc_bytes order d))))))))
      size)
  where
    size :
        36 + length (doc_bytes order d)
        ≡ 16 + length (le32 8 ++ (le64 0 ++ (le32 0 ++ (le32 (num_docs d) ++ doc_bytes order d))))
    size = omega arith

reply_docs-expected :
    (env : Env) (out collection : Bytes)
    → le32 (num_docs (query_reply env collection out))
        ++ doc_bytes (env.order out) (query_reply env collection out)
      ≡ reply_docs env out (asks_admin env.table collection)
unfolding query_reply is_command num_docs doc_bytes is_master_doc
reply_docs-expected env out collection = elim (Bool-cases (asks_admin env.table collection)) [
  | inl e ↦ rw e refl
  | inr e ↦ rw e refl
]

reply-expected :
    (env : Env) (out : Bytes) (r : Request)
    → request_id r < 4294967296
    → reply env out r ≡ answer_to env out r
reply-expected env out (msg id b) h = rw (reply_doc-answer env (command_of env b) (env.now out)) (
    op_msg_message-expected (env.order out) id
      (answer_doc env (env.now out) (answer_of (command_of env b))) h)
reply-expected env out (query id collection counts fs) h =
    op_reply_message-expected (env.order out) id (query_reply env collection out) h
    ∙ ap (λ docs. message id 1 (le32 8 ++ (le64 0 ++ (le32 0 ++ docs))))
        (reply_docs-expected env out collection)
reply-expected env out (legacy id op body) h = refl

pub all_logged-expected : (env : Env) (rs : List Request) → all_logged env rs ≡ all_events env rs
all_logged-expected env [] = refl
all_logged-expected env (r ∷ rs) = rw (logged-expected env r, all_logged-expected env rs)

pub replied-expected :
    (env : Env) (out : Bytes) (rs : List Request)
    → All IsRequest rs
    → replied env out rs ≡ answered env out rs
replied-expected env out [] h = refl
replied-expected env out (r ∷ rs) h =
    ap (λ written. replied env (out ++ written) rs) (reply-expected env out r h.0.0)
    ∙ replied-expected env (out ++ answer_to env out r) rs h.1
