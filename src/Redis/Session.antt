-- ===== src/Redis/Session.antt =====
-- `Handler` of internal/proto/redis/handler.go: the loop that reads, answers and flushes. The
-- buffer of the writer is what one command wrote; it is lost where the handler returns before
-- the flush. (A buffer above 32 KB is written in parts, with the same bytes in the same order.)
pub mod Total
pub mod Replies
pub mod Credentials
use white_toyota_tacoma.Common.{
  ℕ, zero, suc, ◌+◌, ◌-◌, Bool, true, false, Option, none, some, List, [], ◌∷◌, ◌++◌, length,
}
use white_toyota_tacoma.Common.Bytes.{Bytes}
use white_toyota_tacoma.Common.Result.{Result, ok, err}
use white_toyota_tacoma.Conn.{Conn}
use white_toyota_tacoma.Redis.Resp.{Command, read_command}
use white_toyota_tacoma.Redis.Commands.{Env, Counters, Reply, handle_cmd}

pub data Next : Type 0 where
  go : Counters → Conn → Next
  stop : Counters → Conn → Next

-- `flush`
flush : ℕ → Bytes → Counters → Conn → Next
flush zero out k c = stop k c
flush (suc n) out k c = go k (record c { output = c.output ++ out; accepts = n })

-- The error of `handleCmd` is tested before the flush.
finish : Bool → Bytes → Counters → Conn → Next
finish true out k c = stop k c
finish false out k c = flush c.accepts out k c

pub respond : Env → Command → Counters → Conn → Next
respond env cmd k c =
    let counted = record k { commands = k.commands + 1 } in
    let r = handle_cmd env counted cmd in
    finish r.quit r.out counted (record c { events = c.events ++ r.events })

on_read : Env → Result (Command × Bytes) → Counters → Conn → Next
on_read env (err e) k c = stop k c
on_read env (ok (cmd, rest)) k c = respond env cmd k (record c { input = rest })

on_poll : ℕ → Env → Counters → Conn → Next
on_poll zero env k c = stop k c
on_poll (suc n) env k c = on_read env (read_command env.table c.input) k (record c { alive = n })

-- One round of the loop.
pub round : Env → Counters → Conn → Next
round env k c = on_poll c.alive env k c

-- What is left of the loop behind a round.
abbrev after : (Counters → Conn → Option (Counters × Conn)) → Next → Option (Counters × Conn)
after rest (go k c) = rest k c
after rest (stop k c) = some (k, c)

-- `none` where the fuel runs out.
pub loop : ℕ → Env → Counters → Conn → Option (Counters × Conn)
loop zero env k c = none
loop (suc fuel) env k c = after (loop fuel env) (round env k c)

-- Every round takes a byte of the input, so this fuel is enough.
abbrev pub fuel_for : Conn → ℕ
fuel_for c = suc (length c.input)

leave : Counters × Conn → Counters × Conn
leave (k, c) = (record k { active = k.active - 1 }, c)

-- The counters are shared with the other connections; here nobody else counts in between.
pub handler : Env → Counters → Conn → Option (Counters × Conn)
handler env k c =
    let entered = record k { received = k.received + 1; active = k.active + 1 } in
    elim (loop (fuel_for c) env entered c) [ none ↦ none | some r ↦ some (leave r) ]
