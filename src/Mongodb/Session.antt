-- ===== src/Mongodb/Session.antt =====
-- `handleOpQuery`, `handleOpMsg` and `Handler` of internal/proto/mongodb/handler.go.
pub mod Total
pub mod Spec
pub mod Expected
pub mod AsExpected
pub mod Answers
pub mod Refinement
use white_toyota_tacoma.Common.{
  ℕ, zero, suc, ◌+◌, ◌-◌, Bool, true, false, ◌&&◌, ◌||◌, Option, none, some, [], ◌∷◌, ◌++◌, ltb,
  ◌==◌, if◌then◌else◌, length, drop,
}
use white_toyota_tacoma.Common.Int.{ℤ, pos, negsuc}
use white_toyota_tacoma.Common.Bytes.{Bytes, codes, same, index_byte, slice, slice_from, truncate}
use white_toyota_tacoma.Common.Decimal.{format_int}
use white_toyota_tacoma.Common.Utf8.{CaseTable, string_map, to_lower}
use white_toyota_tacoma.Capture.{Event, no_event}
use white_toyota_tacoma.Fingerprint.{Fp}
use white_toyota_tacoma.Conn.{Conn, Peer, M, ◌>>=◌, ◌>>◌, pure, lift, send, log_event, poll}
use white_toyota_tacoma.Conn.Loop.{loop, fuel_for}
use white_toyota_tacoma.Mongodb.Bson.{Doc, Element, parse_bson_doc, extract_string}
use white_toyota_tacoma.Mongodb.Json.{json_marshal}
use white_toyota_tacoma.Mongodb.Encode.{Order, Entries}
use white_toyota_tacoma.Mongodb.Message.{Header, read_message}
use white_toyota_tacoma.Mongodb.Reply.{
  send_op_reply, send_op_msg_reply, is_master_doc, build_info_doc, ok_doc, databases_doc,
  denied_doc,
}
use white_toyota_tacoma.Mongodb.Sections.{Found, sections}

-- The arguments of `Handler`. The order of the maps and the clock may differ from reply to reply:
-- they depend on what was written before.
pub record Env : Type 0 where
  pub peer : Peer
  pub fp : Fp
  pub version : Bytes
  pub table : CaseTable
  pub order : Bytes → Order
  pub now : Bytes → ℤ

-- `sanitize`
abbrev pub keep_visible : ℕ → Option ℕ
keep_visible r = if ltb r 0x20 || r == 0x7f then none else some r

pub sanitize : Bytes → Bytes
sanitize s = string_map keep_visible s

abbrev pub event : Env → Event
event env = record no_event {
  protocol = codes "mongodb";
  src_ip = env.peer.ip;
  src_port = env.peer.port;
}

pub query_event : Env → Bytes → Option Doc → Event
query_event env collection doc = record (event env) {
  command = codes "OP_QUERY " ++ sanitize collection;
  payload = truncate (json_marshal doc) 2048;
}

pub msg_event : Env → Found → Event
msg_event env found = record (event env) {
  command = codes "OP_MSG " ++ sanitize found.command;
  payload = truncate (json_marshal found.doc) 2048;
}

pub auth_event : Env → Bytes → Bytes → Event
auth_event env command user = record (event env) {
  username = user;
  command = codes "AUTH " ++ command;
}

pub opcode_event : Env → ℤ → Event
opcode_event env op = record (event env) { command = codes "opcode:" ++ format_int op }

-- `strings.HasSuffix`
pub has_suffix : Bytes → Bytes → Bool
has_suffix s suffix =
    if ltb (length s) (length suffix)
    then false
    else same (drop (length s - length suffix) s) suffix

abbrev doc_of : Element → Option Doc
doc_of none = none
doc_of (some (doc, n)) = some doc

pub is_command : CaseTable → Bytes → Bool
is_command t collection =
    let lc = to_lower t collection in
    has_suffix lc (codes ".$cmd") || has_suffix lc (codes ".system.namespaces")

pub query_reply : Env → Bytes → Bytes → Option Entries
query_reply env collection out =
    if is_command env.table collection then some (is_master_doc (env.now out)) else none

reply_query : Env → ℤ → Bytes → M (Unit {0})
reply_query env request_id collection c =
    send_op_reply (env.order c.output) request_id (query_reply env collection c.output) c

-- The query behind the name of the collection and two numbers.
on_collection : Env → ℤ → Bytes → ℕ → Bytes → M (Unit {0})
on_collection env request_id payload at collection =
    if ltb (length payload) (at + 8) then pure tt else (do
      tail ← lift (slice_from payload (at + 8))
      r ← lift (parse_bson_doc tail)
      log_event (query_event env collection (doc_of r))
      reply_query env request_id collection)

on_name : Env → ℤ → Bytes → Option ℕ → M (Unit {0})
on_name env request_id payload none = pure tt
on_name env request_id payload (some name_end) = do
  collection ← lift (slice payload 4 (4 + name_end))
  on_collection env request_id payload (4 + name_end + 1) collection

-- `handleOpQuery`
pub on_op_query : Env → ℤ → Bytes → M (Unit {0})
on_op_query env request_id payload =
    if ltb (length payload) 4
    then pure tt
    else (do tail ← lift (slice_from payload 4); on_name env request_id payload (index_byte tail 0))

abbrev pub is_auth : Bytes → Bool
is_auth command =
    same command (codes "saslstart")
    || (same command (codes "saslcontinue") || same command (codes "authenticate"))

user_of : Option Doc → Option Bytes
user_of none = none
user_of (some doc) = extract_string doc (codes "user")

log_user : Env → Bytes → Option Bytes → M (Unit {0})
log_user env command none = pure tt
log_user env command (some user) = log_event (auth_event env command user)

capture_auth : Env → Found → M (Unit {0})
capture_auth env found =
    if is_auth found.command then log_user env found.command (user_of found.doc) else pure tt

abbrev one_of : Bytes → Bytes → Bytes → Bool
one_of command a b = same command a || same command b

-- The document of the reply, at a time.
pub reply_doc : Env → Bytes → ℤ → Entries
reply_doc env command now =
    if same command (codes "ismaster") || one_of command (codes "hello") (codes "isMaster")
    then is_master_doc now
    else if same command (codes "ping")
    then ok_doc
    else if one_of command (codes "buildinfo") (codes "buildInfo")
    then build_info_doc env.version env.fp.es_build_hash
    else if one_of command (codes "listdatabases") (codes "listDatabases")
    then databases_doc
    else if is_auth command
    then ok_doc
    else denied_doc

reply_msg : Env → ℤ → Bytes → M (Unit {0})
reply_msg env request_id command c =
    send_op_msg_reply (env.order c.output) request_id (reply_doc env command (env.now c.output)) c

on_found : Env → ℤ → Found → M (Unit {0})
on_found env request_id found = do
  log_event (msg_event env found)
  capture_auth env found
  reply_msg env request_id found.command

-- `handleOpMsg`
pub on_op_msg : Env → ℤ → Bytes → M (Unit {0})
on_op_msg env request_id payload =
    if ltb (length payload) 4
    then pure tt
    else (lift (sections env.table payload) >>= on_found env request_id)

abbrev is_op : ℤ → ℕ → Bool
is_op (pos n) op = n == op
is_op (negsuc n) op = false

-- `opGetMore`, `opInsert`, `opDelete` and `opUpdate`
abbrev pub is_legacy : ℤ → Bool
is_legacy op = is_op op 2005 || (is_op op 2002 || (is_op op 2006 || is_op op 2001))

-- One message. `none` where the handler returns.
pub on_message : Env → Header × Bytes → M (Option (Unit {0}))
on_message env (hdr, payload) =
    if is_op hdr.op_code 2004
    then (on_op_query env hdr.request_id payload >> pure (some tt))
    else if is_op hdr.op_code 2013
    then (on_op_msg env hdr.request_id payload >> pure (some tt))
    else if is_legacy hdr.op_code
    then (log_event (opcode_event env hdr.op_code) >> pure (some tt))
    else pure none

on_poll : Env → Bool → M (Option (Unit {0}))
on_poll env false = pure none
on_poll env true = read_message >>= on_message env

-- One round of the loop.
pub round : Env → Unit {0} → M (Option (Unit {0}))
round env u = poll >>= on_poll env

pub handler : Env → Conn → Option Conn
handler env c = loop (fuel_for c) (round env) tt c
