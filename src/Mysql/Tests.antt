-- ===== src/Mysql/Tests.antt =====
-- The MySQL service on small inputs.
use white_toyota_tacoma.Common.{
  ℕ, suc, ◌+◌, ◌≡◌, ◌≢◌, refl, some, List, [], ◌∷◌, ◌++◌, length, replicate, arith,
}
use white_toyota_tacoma.Common.Bytes.{Bytes, codes}
use white_toyota_tacoma.Common.Result.{ok, err, panic}
use white_toyota_tacoma.Conn.{Conn}
use white_toyota_tacoma.Conn.Loop.{loop, fuel_for}
use white_toyota_tacoma.Mysql.Packet.{packet}
use white_toyota_tacoma.Mysql.Handshake.{Login, parse_handshake_response, handshake}
use white_toyota_tacoma.Mysql.Handshake.Safety.{parse_handshake_response-ne-panic}
use white_toyota_tacoma.Mysql.Handshake.RoundTrip.{response, parse_handshake_response-response}
use white_toyota_tacoma.Mysql.Session.{Env, round, handler}
use white_toyota_tacoma.Mysql.Session.Total.{mysql_loop_total}
use white_toyota_tacoma.Mysql.Session.Spec.{
  accepted, login_event, Request, query, init_db, other, wire, all_logged, replies, writes,
}
use white_toyota_tacoma.Mysql.Session.Refinement.{mysql_handler_refines}

abbrev env : Env
env = record {
  peer = record { ip = codes "10.0.0.9"; port = 40000 };
  version = codes "8.0.36";
  conn_id = 77;
  scramble = replicate 20 65;
}

abbrev login : Login
login = record { username = codes "root"; database = codes "shop"; auth_resp = 1 ∷ 0 ∷ 255 ∷ [] }

-- Secure connections, with a database.
abbrev caps : ℕ
caps = 0x8008

abbrev filler : Bytes
filler = replicate 28 0

abbrev conn : Conn
conn = record { input = packet 0 (14 ∷ []); output = []; accepts = 4; alive = 4; events = [] }

abbrev requests : List Request
requests =
    query (codes "SELECT 1")
    ∷ init_db (codes "hr")
    ∷ other 14 []
    ∷ query (codes "DROP TABLE t")
    ∷ []

-- The length byte of the answer points behind the payload.
parse_handshake_response-ne-panic_example :
    parse_handshake_response (replicate 32 0 ++ 97 ∷ 0 ∷ 200 ∷ []) ≢ err panic
parse_handshake_response-ne-panic_example =
    parse_handshake_response-ne-panic (replicate 32 0 ++ 97 ∷ 0 ∷ 200 ∷ [])

parse_handshake_response-response_example :
    parse_handshake_response (response caps filler login) ≡ ok login
parse_handshake_response-response_example =
    parse_handshake_response-response caps filler login (omega arith) refl refl refl (omega arith)
      (omega arith)

mysql_loop_total_example :
    (d : Conn) × (loop 50 (round env) login conn ≡ some d)
    × (loop (fuel_for conn) (round env) login conn ≡ some d)
mysql_loop_total_example = mysql_loop_total env login conn 50 (omega arith)

mysql_handler_refines_example :
    handler env (record {
      input = packet 1 (response caps filler login) ++ wire requests;
      output = [];
      accepts = suc (suc (suc (writes requests 0)));
      alive = suc (length requests + 0);
      events = [];
    })
    ≡ some (record {
      input = [];
      output =
          handshake env.version env.conn_id env.scramble ++ packet 2 accepted ++ replies requests;
      accepts = 0;
      alive = 0;
      events = login_event env login ∷ all_logged env login requests;
    })
mysql_handler_refines_example =
    mysql_handler_refines env caps filler login requests 0 0 (omega arith) refl refl refl
      (omega arith) (omega arith) (omega arith) (omega arith)
