-- ===== src/Mysql/Session.antt =====
-- `Handler` of internal/proto/mysql/handler.go.
pub mod Total
pub mod Spec
pub mod Answers
pub mod Refinement
use white_toyota_tacoma.Common.{
  ℕ, zero, suc, ◌+◌, ◌/◌, ◌%◌, Bool, true, false, Option, none, some, List, [], ◌∷◌, ◌++◌, ltb,
  ◌==◌, if◌then◌else◌, length,
}
use white_toyota_tacoma.Common.Bytes.{Bytes, codes, truncate}
use white_toyota_tacoma.Common.Hex.{hex}
use white_toyota_tacoma.Common.Result.{Result, ok, err}
use white_toyota_tacoma.Capture.{Event, no_event}
use white_toyota_tacoma.Conn.{Conn, Peer, M, ◌>>=◌, ◌>>◌, pure, lift, send, log_event, poll}
use white_toyota_tacoma.Conn.Loop.{loop, fuel_for}
use white_toyota_tacoma.Mysql.Packet.{read_packet, send_ok, send_empty_result_set, next_seq}
use white_toyota_tacoma.Mysql.Handshake.{Login, handshake, parse_handshake_response}

-- The peer, and the values drawn for the connection.
pub record Env : Type 0 where
  pub peer : Peer
  pub version : Bytes
  pub conn_id : ℕ
  pub scramble : Bytes

abbrev pub event : Env → Login → Event
event env l = record no_event {
  protocol = codes "mysql";
  src_ip = env.peer.ip;
  src_port = env.peer.port;
  username = l.username;
  database = l.database;
}

abbrev pub connect_event : Env → Login → Event
connect_event env l = record (event env l) {
  auth_hash = hex l.auth_resp;
  command = codes "CONNECT";
}

abbrev pub query_event : Env → Login → Bytes → Event
query_event env l query = record (event env l) { command = truncate query 2048 }

-- One command. `none` where the handler returns.
on_command : Env → Login → ℕ → Bytes → M (Option Login)
on_command env l seq [] = pure (some l)
on_command env l seq (com_type ∷ arg) =
    if com_type == 0x01
    then pure none
    else if com_type == 0x03
    then (do log_event (query_event env l arg); send_empty_result_set (next_seq seq); pure (some l))
    else if com_type == 0x02
    then (do send_ok (next_seq seq); pure (some (record l { database = arg })))
    else (do send_ok (next_seq seq); pure (some l))

on_poll : Env → Login → Bool → M (Option Login)
on_poll env l false = pure none
on_poll env l true = do (seq, payload) ← read_packet; on_command env l seq payload

-- One round of the loop over commands.
pub round : Env → Login → M (Option Login)
round env l = poll >>= on_poll env l

-- Up to the loop.
pub greet : Env → M Login
greet env = do
  send (handshake env.version env.conn_id env.scramble)
  (seq, payload) ← read_packet
  l ← lift (parse_handshake_response payload)
  log_event (connect_event env l)
  send_ok 2
  pure l

enter : Env → Result Login × Conn → Option Conn
enter env (ok l, c) = loop (fuel_for c) (round env) l c
enter env (err e, c) = some c

pub handler : Env → Conn → Option Conn
unfolding enter
handler env c = enter env (greet env c)
