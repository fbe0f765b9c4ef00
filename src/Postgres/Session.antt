-- ===== src/Postgres/Session.antt =====
-- `Handler` of internal/proto/postgres/handler.go.
pub mod Total
pub mod Spec
pub mod Answers
pub mod Refinement
use white_toyota_tacoma.Common.{
  ℕ, zero, suc, ◌+◌, Bool, true, false, ◌||◌, Option, none, some, List, [], ◌∷◌, ◌++◌, ◌==◌,
  if◌then◌else◌,
}
use white_toyota_tacoma.Common.Bytes.{Bytes, codes, truncate}
use white_toyota_tacoma.Common.Result.{Result, ok, err}
use white_toyota_tacoma.Capture.{Event, no_event}
use white_toyota_tacoma.Conn.{Conn, Peer, M, ◌>>=◌, ◌>>◌, pure, send, log_event, poll}
use white_toyota_tacoma.Conn.Loop.{loop, fuel_for}
use white_toyota_tacoma.Postgres.Message.{
  read_message, read_password_message, null_term_string, send_auth_md5, send_auth_ok,
  send_param_status, send_backend_key_data, send_ready_for_query, send_empty_query_response,
  send_error_response,
}
use white_toyota_tacoma.Postgres.Startup.{Account, do_startup}

-- The map `params` of the handler, as it is written.
abbrev pub params : Bytes → List (Bytes × Bytes)
params version =
    (codes "server_version", version)
    ∷ (codes "server_encoding", codes "UTF8")
    ∷ (codes "client_encoding", codes "UTF8")
    ∷ (codes "DateStyle", codes "ISO, MDY")
    ∷ (codes "TimeZone", codes "UTC")
    ∷ (codes "integer_datetimes", codes "on")
    ∷ []

-- The peer, and the values drawn for the connection.
pub record Env : Type 0 where
  pub peer : Peer
  pub salt : Bytes
  pub backend_pid : ℕ
  pub cancel_key : ℕ
  -- The entries of `params` in the order in which `range` visits them, which Go leaves open.
  pub visited : List (Bytes × Bytes)

abbrev pub event : Env → Account → Event
event env a = record no_event {
  protocol = codes "postgres";
  src_ip = env.peer.ip;
  src_port = env.peer.port;
  username = a.username;
  database = a.database;
}

abbrev pub connect_event : Env → Account → Bytes → Event
connect_event env a hash = record (event env a) { auth_hash = hash; command = codes "CONNECT" }

abbrev pub query_event : Env → Account → Bytes → Event
query_event env a query = record (event env a) { command = truncate query 2048 }

pub send_params : List (Bytes × Bytes) → M (Unit {0})
send_params [] = pure tt
send_params ((k, v) ∷ ps) = let rest = send_params ps in send_param_status k v >> rest

abbrev pub idle : ℕ
idle = 73

abbrev pub type_query : ℕ
type_query = 81

abbrev pub type_terminate : ℕ
type_terminate = 88

-- 'P', 'B', 'D', 'E' and 'S'
abbrev pub is_extended : ℕ → Bool
is_extended t = t == 80 || t == 66 || t == 68 || t == 69 || t == 83

-- One message. `none` where the handler returns.
on_message : Env → Account → ℕ × Bytes → M (Option Account)
on_message env a (msg_type, payload) =
    if msg_type == type_query
    then (do
      log_event (query_event env a (null_term_string payload))
      send_empty_query_response
      send_ready_for_query idle
      pure (some a))
    else if msg_type == type_terminate
    then pure none
    else if is_extended msg_type
    then (do
      send_error_response (codes "XX000") (codes "extended query protocol not supported")
      send_ready_for_query idle
      pure (some a))
    else pure (some a)

on_poll : Env → Account → Bool → M (Option Account)
on_poll env a false = pure none
on_poll env a true = read_message >>= on_message env a

-- One round of the loop over messages.
pub round : Env → Account → M (Option Account)
round env a = poll >>= on_poll env a

-- The replies to the login.
welcome : Env → M (Unit {0})
welcome env = do
  send_auth_ok
  send_params env.visited
  send_backend_key_data env.backend_pid env.cancel_key
  send_ready_for_query idle

-- Up to the loop.
greet : Env → M Account
greet env = do
  a ← do_startup
  send_auth_md5 env.salt
  hash ← read_password_message
  log_event (connect_event env a hash)
  welcome env
  pure a

enter : Env → Result Account × Conn → Option Conn
enter env (ok a, c) = loop (fuel_for c) (round env) a c
enter env (err e, c) = some c

pub handler : Env → Conn → Option Conn
unfolding enter
handler env c = enter env (greet env c)
