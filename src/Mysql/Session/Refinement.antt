-- ===== src/Mysql/Session/Refinement.antt =====
use white_toyota_tacoma.Common.{
  ℕ, suc, ◌+◌, ◌≤◌, ◌<◌, ◌≡◌, true, some, List, [], ◌∷◌, ◌++◌, length, All,
}
use white_toyota_tacoma.Common.Bytes.{Bytes, Lacks}
use white_toyota_tacoma.Common.Result.{ok}
use white_toyota_tacoma.Conn.{Conn}
use white_toyota_tacoma.Conn.Loop.{loop_same}
use white_toyota_tacoma.Mysql.Packet.{max_packet_size, packet, ok_payload}
use white_toyota_tacoma.Mysql.Packet.RoundTrip.{read_packet-packet}
use white_toyota_tacoma.Mysql.Handshake.{
  Login, has_cap, cap_secure_conn, cap_conn_with_db, handshake, parse_handshake_response,
}
use white_toyota_tacoma.Mysql.Handshake.RoundTrip.{response, parse_handshake_response-response}
use white_toyota_tacoma.Mysql.Session.{Env, round, greet, enter, handler}
use white_toyota_tacoma.Mysql.Session.Total.{round-Falls}
use white_toyota_tacoma.Mysql.Session.Spec.{
  Request, IsRequest, accepted, wire, login_event, all_logged, replies, writes,
}
use white_toyota_tacoma.Mysql.Session.Answers.{send_ok-eq-ok, loop-answers}

-- The login, from a response that is parsed.
greet-answers :
    (env : Env) (l : Login) (payload rest : Bytes) (n alive : ℕ)
    → length payload ≤ max_packet_size
    → parse_handshake_response payload ≡ ok l
    → greet env (record {
      input = packet 1 payload ++ rest;
      output = [];
      accepts = suc (suc (suc n));
      alive = alive;
      events = [];
    })
      ≡ (
        ok l,
        record {
          input = rest;
          output = handshake env.version env.conn_id env.scramble ++ packet 2 ok_payload;
          accepts = n;
          alive = alive;
          events = login_event env l ∷ [];
        },
      )
unfolding greet
greet-answers env l payload rest n alive h e =
    let c : Conn = record {
      input = [];
      output = handshake env.version env.conn_id env.scramble;
      accepts = suc (suc n);
      alive = alive;
      events = [];
    } in
    rw (read_packet-packet 1 payload rest c h)
      (rw e (rw (send_ok-eq-ok 2 (record c { input = rest; events = login_event env l ∷ [] }) n)))

-- A client that logs in, with a length byte and a database, and then makes requests, finds each
-- of them answered; the log holds the login and then every query, in order, under the database
-- that the client had chosen by then; and then the handler returns. The writes must succeed, the
-- context stay alive, every packet have at most 16 MB - 1, and the capabilities name both fields.
pub mysql_handler_refines :
    (env : Env) (caps : ℕ) (filler : Bytes) (l : Login) (rs : List Request) (n alive : ℕ)
    → caps < 4294967296
    → length filler ≡ 28
    → has_cap caps cap_secure_conn ≡ true
    → has_cap caps cap_conn_with_db ≡ true
    → Lacks 0 l.username
    → Lacks 0 l.database
    → length (response caps filler l) ≤ max_packet_size
    → All IsRequest rs
    → handler env (record {
      input = packet 1 (response caps filler l) ++ wire rs;
      output = [];
      accepts = suc (suc (suc (writes rs n)));
      alive = suc (length rs + alive);
      events = [];
    })
      ≡ some (record {
        input = [];
        output = handshake env.version env.conn_id env.scramble ++ packet 2 accepted ++ replies rs;
        accepts = n;
        alive = alive;
        events = login_event env l ∷ all_logged env l rs;
      })
unfolding handler enter
mysql_handler_refines env caps filler l rs n alive hc hf hs hd lu ld small h = rw (
  greeted,
  loop_same (round env) (round-Falls env) l entered (suc (length rs))
      (loop-answers env l rs (hello ++ packet 2 ok_payload) n alive (login_event env l ∷ []) h),
)
  where
    hello : Bytes
    hello = handshake env.version env.conn_id env.scramble

    entered : Conn
    entered = record {
      input = wire rs;
      output = hello ++ packet 2 ok_payload;
      accepts = writes rs n;
      alive = suc (length rs + alive);
      events = login_event env l ∷ [];
    }

    c : Conn
    c = record {
      input = packet 1 (response caps filler l) ++ wire rs;
      output = [];
      accepts = suc (suc (suc (writes rs n)));
      alive = suc (length rs + alive);
      events = [];
    }

    greeted : greet env c ≡ (ok l, entered)
    greeted =
        greet-answers env l (response caps filler l) (wire rs) (writes rs n)
          (suc (length rs + alive)) small
          (parse_handshake_response-response caps filler l hc hf hs hd lu ld)
