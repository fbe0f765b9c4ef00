-- ===== src/Redis/Tests.antt =====
-- The Redis service on small inputs.
use white_toyota_tacoma.Common.{suc, ◌+◌, ◌≡◌, ◌≢◌, refl, some, [], ◌∷◌, ◌++◌, map, arith}
use white_toyota_tacoma.Common.Int.{pos}
use white_toyota_tacoma.Common.Bytes.{codes}
use white_toyota_tacoma.Common.Result.{ok}
use white_toyota_tacoma.Common.Utf8.{CaseTable, to_upper}
use white_toyota_tacoma.Conn.{Conn}
use white_toyota_tacoma.Fingerprint.{Fp}
use white_toyota_tacoma.Redis.Resp.{read_command, write_array}
use white_toyota_tacoma.Redis.Resp.RoundTrip.{read_command-write_array}
use white_toyota_tacoma.Redis.Commands.{Env, Counters, unknown, verb, event, handle_cmd}
use white_toyota_tacoma.Redis.Commands.Captured.{Attributed, handle_cmd-Attributed}
use white_toyota_tacoma.Redis.Session.{go, stop, loop, fuel_for, round, handler}
use white_toyota_tacoma.Redis.Session.Total.{redis_loop_total}
use white_toyota_tacoma.Redis.Session.Credentials.{attempts, acks, auth_event, handler_captures}
use white_toyota_tacoma.Redis.Session.Replies.{round_reply}

abbrev table : CaseTable
table = record { upper = λ r. r; lower = λ r. r }

abbrev fp : Fp
fp = record {
  redis_run_id = codes "0123456789abcdef0123456789abcdef01234567";
  redis_master_repl_id = [];
  redis_process_id = 4242;
  redis_save_epoch = pos 1700000000;
  mysql_startup_time = 0;
  mongo_cluster_id = [];
  mongo_node_id = [];
  mongo_pid = 0;
  es_node_uuid = [];
  es_build_hash = [];
  es_hostname = [];
  es_pid = 0;
  es_mac_address = [];
  start_time = 0;
}

abbrev env : Env
env = record {
  peer = record { ip = codes "10.0.0.9"; port = 40000 };
  fp = fp;
  version = codes "7.2.4";
  table = table;
  clock = λ n. record { uptime = n; now_usec = n };
}

abbrev counters : Counters
counters = record { received = 0; active = 0; commands = 0 }

abbrev conn : Conn
conn = record { input = codes "PING\r\nx"; output = []; accepts = 4; alive = 4; events = [] }

upper_ping : to_upper table (codes "ping") ≡ codes "PING"
unfolding to_upper
upper_ping = refl

read_command-write_array_example :
    read_command table (write_array (codes "get" ∷ codes "k" ∷ []) ++ codes "rest")
    ≡ ok (
      record { name = to_upper table (codes "get"); args = codes "get" ∷ codes "k" ∷ [] },
      codes "rest",
    )
read_command-write_array_example =
    read_command-write_array table (codes "get") (codes "k" ∷ []) (codes "rest") (omega arith)
      (omega arith)

handler_captures_example :
    handler env counters (record {
      input = attempts (codes "a" ∷ codes "b" ∷ []);
      output = [];
      accepts = 2 + 1;
      alive = suc (2 + 1);
      events = [];
    })
    ≡ some (
      record counters { received = 0 + 1; commands = 0 + 2 },
      record {
        input = [];
        output = acks (codes "a" ∷ codes "b" ∷ []);
        accepts = 1;
        alive = 1;
        events = map (auth_event env) (codes "a" ∷ codes "b" ∷ []);
      },
    )
handler_captures_example =
    handler_captures env (codes "a" ∷ codes "b" ∷ []) counters 1 1 (omega arith)

redis_loop_total_example :
    (r : Counters × Conn) × (loop 9 env counters conn ≡ some r)
    × (loop (fuel_for conn) env counters conn ≡ some r)
redis_loop_total_example = redis_loop_total env counters conn 9 (omega arith)

handle_cmd-Attributed_example :
    Attributed env
      (handle_cmd env counters (record { name = codes "EVAL"; args = codes "EVAL" ∷ [] })).events
    × (verb (codes "EVAL") ≡ unknown
        → (handle_cmd env counters
            (record { name = codes "EVAL"; args = codes "EVAL" ∷ [] })).events
          ≡ record (event env) { command = codes "EVAL" } ∷ [])
handle_cmd-Attributed_example =
    handle_cmd-Attributed env counters (record { name = codes "EVAL"; args = codes "EVAL" ∷ [] })

upper_hello : to_upper table (codes "hello") ≡ codes "HELLO"
unfolding to_upper
upper_hello = refl

upper_three : to_upper table (codes "3") ≢ codes "AUTH"
unfolding to_upper
upper_three e = cc

upper_auth : to_upper table (codes "auth") ≡ codes "AUTH"
unfolding to_upper
upper_auth = refl

abbrev ping_conn : Conn
ping_conn = record {
  input = write_array (codes "ping" ∷ []) ++ [];
  output = [];
  accepts = 1;
  alive = 1;
  events = [];
}

round_reply_example :
    let k = record counters { commands = 0 + 1 } in
    let r =
      handle_cmd env k
        (record { name = to_upper table (codes "ping"); args = codes "ping" ∷ [] }) in
    let s = round env counters ping_conn in
    (to_upper table (codes "ping") ≡ codes "QUIT"
      → (r.out ≡ codes "+OK\r\n")
        × (s ≡ stop k (record { input = []; output = []; accepts = 1; alive = 0; events = [] })))
    × (to_upper table (codes "ping") ≢ codes "QUIT"
        → s
          ≡ go k (record { input = []; output = r.out; accepts = 0; alive = 0; events = r.events }))
round_reply_example =
    round_reply env counters (codes "ping") [] [] [] 0 0 [] (omega arith) (omega arith)
