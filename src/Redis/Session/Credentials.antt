-- ===== src/Redis/Session/Credentials.antt =====
-- The credentials a whole session of `Handler` (internal/proto/redis/handler.go) sends by `AUTH`,
-- from the bytes on the wire to the event log.
use white_toyota_tacoma.Common.{
  ℕ, suc, ◌+◌, ◌≡◌, refl, ap, ◌∙◌, some, List, [], ◌∷◌, ◌++◌, map, append_assoc, append-nil, length,
  arith,
}
use native.Mathlib.Nat.{add-zero, zero-add, suc-add}
use white_toyota_tacoma.Common.Bytes.{Bytes, codes, same, index_byte}
use white_toyota_tacoma.Common.Utf8.{CaseTable, to_upper}
use white_toyota_tacoma.Capture.{Event}
use white_toyota_tacoma.Redis.Resp.{read_command, write_array, write_simple}
use white_toyota_tacoma.Redis.Resp.RoundTrip.{AreBulks}
use white_toyota_tacoma.Redis.Commands.{Env, Counters, event, handle_cmd}
use white_toyota_tacoma.Redis.Session.Total.{loop_same}
use white_toyota_tacoma.Redis.Session.{
  go, flush, finish, respond, on_read, on_poll, round, after, loop, leave, handler,
}
use white_toyota_tacoma.Redis.Session.Replies.{round-write_array}

abbrev pub auth_event : Env → Bytes → Event
auth_event env password = record (event env) { password = password; command = codes "AUTH" }

abbrev auth_args : Bytes → List Bytes
auth_args password = codes "AUTH" ∷ password ∷ []

upper_auth : (t : CaseTable) → to_upper t (codes "AUTH") ≡ codes "AUTH"
unfolding to_upper
upper_auth t = refl

-- A client that tries one password after the other.
abbrev pub attempts : List Bytes → Bytes
attempts [] = []
attempts (p ∷ ps) = write_array (auth_args p) ++ attempts ps

abbrev pub acks : List Bytes → Bytes
acks [] = []
acks (p ∷ ps) = codes "+OK\r\n" ++ acks ps

respond_auth :
    (env : Env) (k : Counters) (p rest out : Bytes) (accepts alive : ℕ) (events : List Event)
    → respond env
        (record { name = codes "AUTH"; args = auth_args p })
        k
        (record {
          input = rest;
          output = out;
          accepts = suc accepts;
          alive = alive;
          events = events;
        })
      ≡ go
          (record k { commands = k.commands + 1 })
          (record {
            input = rest;
            output = out ++ codes "+OK\r\n";
            accepts = accepts;
            alive = alive;
            events = events ++ auth_event env p ∷ [];
          })
unfolding respond finish flush handle_cmd write_simple same
respond_auth env k p rest out accepts alive events = refl

loop-attempts :
    (env : Env) (ps : List Bytes) (k : Counters) (out : Bytes) (accepts alive : ℕ)
    (events : List Event)
    → AreBulks ps
    → loop (suc (length ps)) env k (record {
      input = attempts ps;
      output = out;
      accepts = length ps + accepts;
      alive = suc (length ps + alive);
      events = events;
    })
      ≡ some (
        record k { commands = k.commands + length ps },
        record {
          input = [];
          output = out ++ acks ps;
          accepts = accepts;
          alive = alive;
          events = events ++ map (auth_event env) ps;
        },
      )
unfolding loop
loop-attempts env [] k out accepts alive events h =
    rw (zero-add, zero-add, append-nil, append-nil, add-zero)
      (unfold round on_poll on_read read_command index_byte in refl)
loop-attempts env (p ∷ ps) k out accepts alive events h =
    rw (suc-add, suc-add)
      (ap (after (loop (suc (length ps)) env))
          (first (length ps + accepts) (suc (length ps + alive)))
        ∙ loop-attempts env ps (record k { commands = k.commands + 1 }) (out ++ codes "+OK\r\n")
            accepts alive (events ++ auth_event env p ∷ []) h.1
        ∙ ground (
          arith,
          append_assoc out (codes "+OK\r\n") (acks ps),
          append_assoc events (auth_event env p ∷ []) (map (auth_event env) ps),
        ))
  where
    first :
        (n m : ℕ)
        → round env k (record {
          input = attempts (p ∷ ps);
          output = out;
          accepts = suc n;
          alive = suc m;
          events = events;
        })
          ≡ go
              (record k { commands = k.commands + 1 })
              (record {
                input = attempts ps;
                output = out ++ codes "+OK\r\n";
                accepts = n;
                alive = m;
                events = events ++ auth_event env p ∷ [];
              })
    first n m =
        round-write_array env k (codes "AUTH") (p ∷ []) (attempts ps) out (suc n) m events
          (omega arith) (omega arith, (h.0, tt))
        ∙ rw (upper_auth env.table) (respond_auth env k p (attempts ps) out n m events)

-- A client that tries passwords by `AUTH`, one after the other, is told OK each time, and every
-- password is captured, in order, with nothing else; the handler then returns. The writes must
-- succeed, the context stay alive, and each password have at most 16 MB.
pub handler_captures :
    (env : Env) (ps : List Bytes) (k : Counters) (accepts alive : ℕ)
    → AreBulks ps
    → handler env k (record {
      input = attempts ps;
      output = [];
      accepts = length ps + accepts;
      alive = suc (length ps + alive);
      events = [];
    })
      ≡ some (
        record k { received = k.received + 1; commands = k.commands + length ps },
        record {
          input = [];
          output = acks ps;
          accepts = accepts;
          alive = alive;
          events = map (auth_event env) ps;
        },
      )
unfolding handler leave
handler_captures env ps k accepts alive h =
    let entered = record k { received = k.received + 1; active = k.active + 1 } in
    rw
      (
        handler,
        loop_same env entered
            (record {
              input = attempts ps;
              output = [];
              accepts = length ps + accepts;
              alive = suc (length ps + alive);
              events = [];
            })
            (suc (length ps)) (loop-attempts env ps entered [] accepts alive [] h),
      )
      (ground arith)
