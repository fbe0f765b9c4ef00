-- ===== src/Redis/Commands.antt =====
-- `handleCmd` and `handleConfig` of internal/proto/redis/handler.go. A reply is written to the
-- connection's buffer; `Session` flushes it.
pub mod Captured
use Prim.Native.String.{String}
use white_toyota_tacoma.Common.{
  ℕ, zero, suc, Bool, true, false, ◌||◌, Option, none, some, List, [], ◌∷◌, ◌++◌, if◌then◌else◌,
  drop,
}
use white_toyota_tacoma.Common.Int.{pos, negsuc}
use white_toyota_tacoma.Common.Bytes.{Bytes, codes, same}
use white_toyota_tacoma.Common.Utf8.{CaseTable, to_upper, to_lower}
use white_toyota_tacoma.Capture.{Event, no_event}
use white_toyota_tacoma.Conn.{Peer}
use white_toyota_tacoma.Fingerprint.{Fp}
use white_toyota_tacoma.Redis.Resp.{
  Command, write_simple, write_error, write_int, write_bulk, write_null, write_array,
}
use white_toyota_tacoma.Redis.Info.{Clock, build_info}

-- What the handlers of one server share, and the case tables of the standard library.
pub record Env : Type 0 where
  pub peer : Peer
  pub fp : Fp
  pub version : Bytes
  pub table : CaseTable
  -- The clock at the command of this number.
  pub clock : ℕ → Clock

-- `received` and `active` count connections.
pub record Counters : Type 0 where
  pub received : ℕ
  pub active : ℕ
  pub commands : ℕ

pub record Reply : Type 0 where
  pub out : Bytes
  pub events : List Event
  -- `io.EOF` is returned.
  pub quit : Bool

-- The cases of the switch.
pub data Verb : Type 0 where
  hello command ping auth select quit info config keys dbsize set get del exists ttl : Verb
  flush client cluster probe unknown : Verb

abbrev is : Bytes → String → Bool
is s text = same s (codes text)

unfoldable pub verb : Bytes → Verb
verb s =
    if is s "HELLO"
    then hello
    else if is s "COMMAND"
    then command
    else if is s "PING"
    then ping
    else if is s "AUTH"
    then auth
    else if is s "SELECT"
    then select
    else if is s "QUIT"
    then quit
    else if is s "INFO"
    then info
    else if is s "CONFIG"
    then config
    else if is s "KEYS"
    then keys
    else if is s "DBSIZE"
    then dbsize
    else if is s "SET"
    then set
    else if is s "GET"
    then get
    else if is s "DEL"
    then del
    else if is s "EXISTS"
    then exists
    else if is s "TTL"
    then ttl
    else if is s "FLUSHALL" || is s "FLUSHDB"
    then flush
    else if is s "CLIENT"
    then client
    else if is s "CLUSTER"
    then cluster
    else if is s "DEBUG" || (is s "MONITOR" || (is s "SLOWLOG" || (is s "OBJECT" || is s "WAIT")))
    then probe
    else unknown

abbrev answer : Bytes → Reply
answer out = record { out = out; events = []; quit = false }

abbrev pub event : Env → Event
event env = record no_event {
  protocol = codes "redis";
  src_ip = env.peer.ip;
  src_port = env.peer.port;
}

abbrev logged : Env → Bytes → Bytes → Reply
logged env text out = record {
  out = out;
  events = record (event env) { command = text } ∷ [];
  quit = false;
}

abbrev ok_reply : Bytes
ok_reply = write_simple (codes "OK")

-- The loop of `HELLO` over its arguments: the first `AUTH` that two arguments follow.
pub hello_auth : CaseTable → List Bytes → Option (Bytes × Bytes)
hello_auth t (a ∷ user ∷ pass ∷ rest) =
    let later = hello_auth t (user ∷ pass ∷ rest) in
    if is (to_upper t a) "AUTH" then some (user, pass) else later
hello_auth t _ = none

hello_events : Env → Option (Bytes × Bytes) → List Event
hello_events env none = []
hello_events env (some (user, pass)) =
    record (event env) { username = user; password = pass; command = codes "HELLO AUTH" } ∷ []

on_hello : Env → List Bytes → Reply
on_hello env args = record {
  out = write_error (codes "NOPROTO sorry, this server does not support HELLO");
  events = hello_events env (hello_auth env.table (drop 1 args));
  quit = false;
}

on_ping : List Bytes → Reply
on_ping (a ∷ b ∷ rest) = answer (write_bulk b)
on_ping _ = answer (write_simple (codes "PONG"))

on_auth : Env → List Bytes → Reply
on_auth env (a ∷ password ∷ rest) = record {
  out = ok_reply;
  events = record (event env) { password = password; command = codes "AUTH" } ∷ [];
  quit = false;
}
on_auth env _ = answer (write_error (codes "wrong number of arguments for 'auth' command"))

section_of : CaseTable → List Bytes → Bytes
section_of t (a ∷ b ∷ rest) = to_lower t b
section_of t _ = []

on_info : Env → Counters → List Bytes → Reply
on_info env k args = answer (
    write_bulk (
      build_info env.fp env.version (section_of env.table args) k.commands k.received
        (env.clock k.commands)))

config_get : List Bytes → Bytes
config_get (a ∷ b ∷ c ∷ rest) = write_array []
config_get _ = write_error (codes "wrong number of arguments for 'config|get' command")

config_set : List Bytes → Bytes
config_set (a ∷ b ∷ c ∷ d ∷ rest) = ok_reply
config_set _ = write_error (codes "wrong number of arguments for 'config|set' command")

handle_config_sub : CaseTable → Bytes → List Bytes → Bytes
handle_config_sub t sub args =
    if is sub "GET"
    then config_get args
    else if is sub "SET"
    then config_set args
    else if is sub "RESETSTAT"
    then ok_reply
    else if is sub "REWRITE"
    then write_error (codes "The server is running without a config file")
    else write_error (codes "unknown subcommand '" ++ (to_lower t sub ++ codes "'"))

pub handle_config : CaseTable → List Bytes → Bytes
unfolding handle_config_sub config_get config_set
handle_config t (a ∷ b ∷ rest) = handle_config_sub t (to_upper t b) (a ∷ b ∷ rest)
handle_config t _ = write_error (codes "wrong number of arguments for 'config' command")

on_set : Env → List Bytes → Reply
on_set env (a ∷ key ∷ value ∷ rest) = logged env (codes "SET " ++ key) ok_reply
on_set env _ = answer (write_error (codes "wrong number of arguments for 'set' command"))

on_get : List Bytes → Reply
on_get (a ∷ b ∷ rest) = answer write_null
on_get _ = answer (write_error (codes "wrong number of arguments for 'get' command"))

on_client : CaseTable → List Bytes → Reply
on_client t (a ∷ b ∷ rest) = answer (
    if is (to_upper t b) "SETNAME"
    then ok_reply
    else if is (to_upper t b) "GETNAME"
    then write_null
    else ok_reply)
on_client t _ = answer ok_reply

unfoldable pub on_verb : Env → Counters → Bytes → List Bytes → Verb → Reply
unfolding hello_auth hello_events on_hello on_ping on_auth section_of on_info handle_config on_set
    on_get on_client
on_verb env k name args hello = on_hello env args
on_verb env k name args command = answer ok_reply
on_verb env k name args ping = on_ping args
on_verb env k name args auth = on_auth env args
on_verb env k name args select = answer ok_reply
on_verb env k name args quit = record { out = ok_reply; events = []; quit = true }
on_verb env k name args info = on_info env k args
on_verb env k name args config = answer (handle_config env.table args)
on_verb env k name args keys = answer (write_array [])
on_verb env k name args dbsize = answer (write_int (pos 0))
on_verb env k name args set = on_set env args
on_verb env k name args get = on_get args
on_verb env k name args del = answer (write_int (pos 0))
on_verb env k name args exists = answer (write_int (pos 0))
on_verb env k name args ttl = answer (write_int (negsuc 0))
on_verb env k name args flush = logged env name ok_reply
on_verb env k name args client = on_client env.table args
on_verb env k name args cluster =
    answer (write_error (codes "This instance has cluster support disabled"))
on_verb env k name args probe =
    logged env name
      (write_error (codes "unknown command '" ++ (to_lower env.table name ++ codes "'")))
on_verb env k name args unknown = logged env name (
    write_error (
      codes "unknown command '"
      ++ (to_lower env.table name ++ codes "', with args beginning with: ")))

unfoldable pub handle_cmd : Env → Counters → Command → Reply
unfolding on_verb verb
handle_cmd env k cmd = on_verb env k cmd.name cmd.args (verb cmd.name)
