-- ===== src/Redis/Session/Replies.antt =====
-- One round of the loop of `Handler.Handle` (internal/proto/redis/handler.go) on a command that arrives
-- as an array: what it reads, writes and logs.
use white_toyota_tacoma.Common.{
  ℕ, suc, ◌+◌, ◌≤◌, ◌≡◌, refl, ◌∙◌, List, [], ◌∷◌, ◌++◌, append-nil, length, All, ◌≢◌,
}
use white_toyota_tacoma.Common.Bytes.{Bytes, codes, same}
use white_toyota_tacoma.Common.Utf8.{to_upper}
use white_toyota_tacoma.Capture.{Event}
use white_toyota_tacoma.Redis.Resp.{write_array, write_simple, write_error, max_args}
use white_toyota_tacoma.Redis.Resp.RoundTrip.{AreBulks, read_command-write_array}
use white_toyota_tacoma.Redis.Commands.{Env, Counters, event, handle_cmd}
use white_toyota_tacoma.Redis.Commands.Captured.{hello_auth-append, handle_cmd-quit}
use white_toyota_tacoma.Redis.Session.{go, stop, flush, finish, respond, on_read, on_poll, round}

-- A round on a command that arrives as an array, with the context alive.
pub round-write_array :
    (env : Env) (k : Counters) (a : Bytes) (args : List Bytes) (rest out : Bytes)
    (accepts alive : ℕ) (events : List Event)
    → length (a ∷ args) ≤ max_args
    → AreBulks (a ∷ args)
    → round env k (record {
      input = write_array (a ∷ args) ++ rest;
      output = out;
      accepts = accepts;
      alive = suc alive;
      events = events;
    })
      ≡ respond env
          (record { name = to_upper env.table a; args = a ∷ args })
          k
          (record { input = rest; output = out; accepts = accepts; alive = alive; events = events })
unfolding round on_poll
round-write_array env k a args rest out accepts alive events h b =
    rw (read_command-write_array env.table a args rest h b) (unfold on_read in refl)

-- A round on `HELLO … AUTH user pass …`, with the words in any case and the first `AUTH` of the
-- arguments that one: the user and the password are captured, the protocol is declined, and the
-- rest of the input is left. The context is alive, the write succeeds, and the command is at most
-- 1024 arguments of at most 16 MB.
pub round_hello :
    (env : Env) (k : Counters) (before : List Bytes) (a user pass : Bytes) (after_them : List Bytes)
    (hello_word rest out : Bytes) (accepts alive : ℕ) (events : List Event)
    → to_upper env.table hello_word ≡ codes "HELLO"
    → All (λ b. to_upper env.table b ≢ codes "AUTH") before
    → to_upper env.table a ≡ codes "AUTH"
    → length (hello_word ∷ (before ++ a ∷ user ∷ pass ∷ after_them)) ≤ max_args
    → AreBulks (hello_word ∷ (before ++ a ∷ user ∷ pass ∷ after_them))
    → round env k (record {
      input = write_array (hello_word ∷ (before ++ a ∷ user ∷ pass ∷ after_them)) ++ rest;
      output = out;
      accepts = suc accepts;
      alive = suc alive;
      events = events;
    })
      ≡ go
          (record k { commands = k.commands + 1 })
          (record {
            input = rest;
            output = out ++ codes "-ERR NOPROTO sorry, this server does not support HELLO\r\n";
            accepts = accepts;
            alive = alive;
            events =
                events
                ++ record (event env) {
                  username = user;
                  password = pass;
                  command = codes "HELLO AUTH";
                }
                  ∷ [];
          })
unfolding respond finish flush handle_cmd write_error same
round_hello env k before a user pass after_them w rest out accepts alive events hw hb ha hl hk =
    round-write_array env k w _ rest out (suc accepts) alive events hl hk
    ∙ rw hw (rw (hello_auth-append env.table before a user pass after_them hb ha))

-- The reply to a command is sent, unless the command is `QUIT`: its OK is written to a buffer that
-- the handler drops, so that the peer sees the connection close with no reply. Here the context is
-- alive, the write would succeed, and the command is an array within the limits.
pub round_reply :
    (env : Env) (k : Counters) (a : Bytes) (args : List Bytes) (rest out : Bytes)
    (accepts alive : ℕ) (events : List Event)
    → length (a ∷ args) ≤ max_args
    → AreBulks (a ∷ args)
    → let k' = record k { commands = k.commands + 1 } in
      let r = handle_cmd env k' (record { name = to_upper env.table a; args = a ∷ args }) in
      let s = round env k (record {
        input = write_array (a ∷ args) ++ rest;
        output = out;
        accepts = suc accepts;
        alive = suc alive;
        events = events;
      }) in
      (to_upper env.table a ≡ codes "QUIT"
        → (r.out ≡ codes "+OK\r\n")
          × (s
              ≡ stop k' (record {
                input = rest;
                output = out;
                accepts = suc accepts;
                alive = alive;
                events = events;
              })))
      × (to_upper env.table a ≢ codes "QUIT"
          → s
            ≡ go k' (record {
              input = rest;
              output = out ++ r.out;
              accepts = accepts;
              alive = alive;
              events = events ++ r.events;
            }))
unfolding respond finish flush
round_reply env k a args rest out accepts alive events h b =
    let k' : Counters = record k { commands = k.commands + 1 } in
    let arrived = round-write_array env k a args rest out (suc accepts) alive events h b in
    (
      λ e. rw (arrived, e) (unfold handle_cmd write_simple same in (refl, rw append-nil)),
      λ e. rw (
        arrived,
        handle_cmd-quit env k' (record { name = to_upper env.table a; args = a ∷ args }) e,
      ),
    )
