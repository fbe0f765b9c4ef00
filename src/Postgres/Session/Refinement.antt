-- ===== src/Postgres/Session/Refinement.antt =====
-- The handler against what it is for: a log of the login and of every query.
use mathlib.Core.List.{Permᴰ}
use native.Mathlib.Nat.{zero-add, suc-add}
use white_toyota_tacoma.Common.{
  ℕ, suc, ◌+◌, ◌≤◌, ◌≡◌, refl, sym, ap, ◌∙◌, some, List, [], ◌∷◌, ◌++◌, length, take, replicate,
  subst, All, append_assoc, append-nil,
}
use white_toyota_tacoma.Common.Bytes.{Bytes, be32, Lacks}
use white_toyota_tacoma.Common.Result.{ok}
use white_toyota_tacoma.Conn.{Conn}
use white_toyota_tacoma.Conn.Loop.{loop_same}
use white_toyota_tacoma.Postgres.Message.{
  max_msg_len, message, param_body, type_password, send_msg, send_auth_md5, send_auth_ok,
  send_param_status, send_backend_key_data, send_ready_for_query,
}
use white_toyota_tacoma.Postgres.Message.RoundTrip.{read_password_message-message}
use white_toyota_tacoma.Postgres.Startup.{max_startup_len}
use white_toyota_tacoma.Postgres.Startup.Params.{IsParam, param_list}
use white_toyota_tacoma.Postgres.Startup.Login.{
  account, after_ssl, startup_message, do_startup-startup,
}
use white_toyota_tacoma.Postgres.Session.{
  Env, params, send_params, idle, round, welcome, greet, enter, handler,
}
use white_toyota_tacoma.Postgres.Session.Total.{round-Falls}
use white_toyota_tacoma.Postgres.Session.Spec.{
  login_event, Request, IsRequest, wire, all_logged, replies, writes, statuses, welcomed, challenge,
  greeting,
}
use white_toyota_tacoma.Postgres.Session.Answers.{loop-answers}

send_params-eq-ok :
    (ps : List (Bytes × Bytes)) (c : Conn) (n : ℕ)
    → send_params ps (record c { accepts = length ps + n })
      ≡ (ok tt, record c { output = c.output ++ statuses ps; accepts = n })
unfolding send_params send_param_status send_msg
send_params-eq-ok [] c n = rw (zero-add, append-nil)
send_params-eq-ok ((k, v) ∷ ps) c n = rw (suc-add (length ps) n) (
    send_params-eq-ok ps (record c { output = c.output ++ message 83 (param_body k v) }) n
    ∙ rw (append_assoc c.output (message 83 (param_body k v)) (statuses ps)))

regroup : (o a s k z : Bytes) → (((o ++ a) ++ s) ++ k) ++ z ≡ o ++ (a ++ (s ++ (k ++ z)))
regroup o a s k z =
    append_assoc ((o ++ a) ++ s) k z
    ∙ append_assoc (o ++ a) s (k ++ z)
    ∙ append_assoc o a (s ++ (k ++ z))

welcome-eq-ok :
    (env : Env) (c : Conn) (n : ℕ)
    → welcome env (record c { accepts = suc (length env.visited + suc (suc n)) })
      ≡ (ok tt, record c { output = c.output ++ welcomed env; accepts = n })
unfolding welcome send_auth_ok send_backend_key_data send_ready_for_query send_msg
welcome-eq-ok env c n =
    rw
      (send_params-eq-ok env.visited
        (record c { output = c.output ++ 82 ∷ 0 ∷ 0 ∷ 0 ∷ 8 ∷ 0 ∷ 0 ∷ 0 ∷ 0 ∷ [] }) (suc (suc n)))
      (ap (λ o. (ok tt, record c { output = o; accepts = n }))
        (regroup c.output _ (statuses env.visited)
          (message 75 (be32 env.backend_pid ++ be32 env.cancel_key)) (message 90 (idle ∷ []))))

send_auth_md5-eq-ok :
    (salt : Bytes) (c : Conn) (n : ℕ)
    → send_auth_md5 salt (record c { accepts = suc n }) ≡ (
      ok tt,
      record c { output = c.output ++ 82 ∷ (be32 12 ++ (be32 5 ++ take 4 salt)); accepts = n },
    )
unfolding send_auth_md5
send_auth_md5-eq-ok salt c n = refl

greet-answers :
    (env : Env) (ps : List (Bytes × Bytes)) (hash rest : Bytes) (ssl n alive : ℕ)
    → All IsParam ps
    → 8 + length (param_list ps) ≤ max_startup_len
    → Lacks 0 hash
    → length (hash ++ 0 ∷ []) ≤ max_msg_len
    → greet env (record {
      input =
          after_ssl ssl (startup_message ps ++ (message type_password (hash ++ 0 ∷ []) ++ rest));
      output = [];
      accepts = ssl + suc (suc (length env.visited + suc (suc n)));
      alive = alive;
      events = [];
    })
      ≡ (
        ok (account ps),
        record {
          input = rest;
          output = greeting ssl env;
          accepts = n;
          alive = alive;
          events = login_event env (account ps) hash ∷ [];
        },
      )
unfolding greet
greet-answers env ps hash rest ssl n alive hp hl lh small =
    let more : ℕ = suc (length env.visited + suc (suc n)) in
    let c : Conn = record { input = []; output = []; accepts = 0; alive = alive; events = [] } in
    let pw : Bytes = message type_password (hash ++ 0 ∷ []) ++ rest in
    rw (do_startup-startup ps pw ssl (suc more) c hp hl) (
      rw (send_auth_md5-eq-ok env.salt (record c { input = pw; output = replicate ssl 78 }) more) (
        rw
          (read_password_message-message hash rest
            (record c { output = replicate ssl 78 ++ challenge env.salt; accepts = more }) lh small)
          (rw (
            welcome-eq-ok env
              (record c {
                input = rest;
                output = replicate ssl 78 ++ challenge env.salt;
                events = login_event env (account ps) hash ∷ [];
              })
              n))))

Permᴰ-length : {A : Type 0} {xs ys : List A} → Permᴰ xs ys → length xs ≡ length ys
Permᴰ-length Permᴰ.nil = refl
Permᴰ-length (Permᴰ.cons e p) = ap suc (Permᴰ-length p)
Permᴰ-length (Permᴰ.swap e f) = refl
Permᴰ-length (Permᴰ.trans p q) = Permᴰ-length p ∙ Permᴰ-length q

-- A client that asks for SSL any number of times, names its account, answers the challenge and
-- then sends messages, finds each query and each message of the extended protocol answered;
-- messages of other types are passed over without an answer. The log holds the login with the
-- client's answer, and then every query, in order and up to its NUL; and then the handler returns.
-- So it is in whatever order Go visits the parameters. The writes must succeed, the context stay
-- alive, and every message keep to the limits of the handler.
pub postgres_handler_refines :
    (env : Env) (version : Bytes) (ps : List (Bytes × Bytes)) (hash : Bytes) (rs : List Request)
    (ssl n alive : ℕ)
    → Permᴰ (params version) env.visited
    → All IsParam ps
    → 8 + length (param_list ps) ≤ max_startup_len
    → Lacks 0 hash
    → length (hash ++ 0 ∷ []) ≤ max_msg_len
    → All IsRequest rs
    → handler env (record {
      input =
          after_ssl ssl (startup_message ps ++ (message type_password (hash ++ 0 ∷ []) ++ wire rs));
      output = [];
      accepts = ssl + suc (suc (6 + suc (suc (writes rs n))));
      alive = suc (length rs + alive);
      events = [];
    })
      ≡ some (record {
        input = [];
        output = greeting ssl env ++ replies rs;
        accepts = n;
        alive = alive;
        events = login_event env (account ps) hash ∷ all_logged env (account ps) rs;
      })
unfolding handler enter
postgres_handler_refines env version ps hash rs ssl n alive visits hp hl lh small h =
    subst
      (λ k.
        handler env (record {
          input =
              after_ssl ssl
                (startup_message ps ++ (message type_password (hash ++ 0 ∷ []) ++ wire rs));
          output = [];
          accepts = ssl + suc (suc (k + suc (suc (writes rs n))));
          alive = suc (length rs + alive);
          events = [];
        })
        ≡ some (record {
          input = [];
          output = greeting ssl env ++ replies rs;
          accepts = n;
          alive = alive;
          events = login_event env (account ps) hash ∷ all_logged env (account ps) rs;
        }))
      (sym (Permᴰ-length visits))
      (rw
        (greet-answers env ps hash (wire rs) ssl (writes rs n) (suc (length rs + alive)) hp hl lh
          small)
        (loop_same (round env) (round-Falls env) (account ps) entered (suc (length rs)) (
          loop-answers env (account ps) rs (greeting ssl env) n alive
            (login_event env (account ps) hash ∷ []) h)))
  where
    entered : Conn
    entered = record {
      input = wire rs;
      output = greeting ssl env;
      accepts = writes rs n;
      alive = suc (length rs + alive);
      events = login_event env (account ps) hash ∷ [];
    }
