-- ===== src/Redis/Commands/Captured.antt =====
-- What the commands log, and which of them ends the session.
use white_toyota_tacoma.Common.{
  ◌≤◌, ◌≡◌, ◌≢◌, refl, ◌∙◌, false, Option, none, some, List, [], ◌∷◌, ◌++◌, length, arith, All,
}
use white_toyota_tacoma.Common.Bytes.{Bytes, codes, same_iff, same_refl}
use white_toyota_tacoma.Common.Utf8.{CaseTable, to_upper}
use white_toyota_tacoma.Capture.{Event}
use white_toyota_tacoma.Redis.Resp.{Command}
use white_toyota_tacoma.Redis.Commands.{
  Env, Counters, Verb, hello, ping, auth, quit, set, get, flush, client, probe, unknown, verb,
  event, hello_auth, hello_events, on_verb, handle_cmd,
}

hello_auth_skip :
    (t : CaseTable) (b x y : Bytes) (rest : List Bytes)
    → to_upper t b ≢ codes "AUTH"
    → hello_auth t (b ∷ x ∷ y ∷ rest) ≡ hello_auth t (x ∷ y ∷ rest)
unfolding hello_auth
hello_auth_skip t b x y rest h = ground (arith, same_iff (to_upper t b) (codes "AUTH"))

-- The first `AUTH` with two arguments behind it gives the credentials.
pub hello_auth-append :
    (t : CaseTable) (before : List Bytes) (a user pass : Bytes) (rest : List Bytes)
    → All (λ b. to_upper t b ≢ codes "AUTH") before
    → to_upper t a ≡ codes "AUTH"
    → hello_auth t (before ++ a ∷ user ∷ pass ∷ rest) ≡ some (user, pass)
hello_auth-append t [] a user pass rest h e =
    unfold hello_auth in rw e (rw (same_refl (codes "AUTH")))
hello_auth-append t (b ∷ []) a user pass rest h e =
    hello_auth_skip t b a user (pass ∷ rest) h.0 ∙ hello_auth-append t [] a user pass rest tt e
hello_auth-append t (b ∷ c ∷ []) a user pass rest h e =
    hello_auth_skip t b c a (user ∷ pass ∷ rest) h.0
    ∙ hello_auth-append t (c ∷ []) a user pass rest h.1 e
hello_auth-append t (b ∷ c ∷ d ∷ before) a user pass rest h e =
    hello_auth_skip t b c d (before ++ a ∷ user ∷ pass ∷ rest) h.0
    ∙ hello_auth-append t (c ∷ d ∷ before) a user pass rest h.1 e

-- Only `QUIT` ends the session.
verb-quit : (s : Bytes) → verb s ≡ quit → s ≡ codes "QUIT"
unfolding verb
verb-quit s e = ground (arith, same_iff s (codes "QUIT"))

on_verb-quit :
    (env : Env) (k : Counters) (name : Bytes) (args : List Bytes) (v : Verb)
    → v ≢ quit
    → (on_verb env k name args v).quit ≡ false
unfolding on_verb
on_verb-quit env k name args hello h = refl
on_verb-quit env k name [] ping h = refl
on_verb-quit env k name (a ∷ []) ping h = refl
on_verb-quit env k name (a ∷ b ∷ r) ping h = refl
on_verb-quit env k name [] auth h = refl
on_verb-quit env k name (a ∷ []) auth h = refl
on_verb-quit env k name (a ∷ b ∷ r) auth h = refl
on_verb-quit env k name [] set h = refl
on_verb-quit env k name (a ∷ []) set h = refl
on_verb-quit env k name (a ∷ b ∷ []) set h = refl
on_verb-quit env k name (a ∷ b ∷ c ∷ r) set h = refl
on_verb-quit env k name [] get h = refl
on_verb-quit env k name (a ∷ []) get h = refl
on_verb-quit env k name (a ∷ b ∷ r) get h = refl
on_verb-quit env k name [] client h = refl
on_verb-quit env k name (a ∷ []) client h = refl
on_verb-quit env k name (a ∷ b ∷ r) client h = refl
on_verb-quit env k name args quit h = absurd (h refl)
on_verb-quit env k name args _ h = refl

pub handle_cmd-quit :
    (env : Env) (k : Counters) (cmd : Command)
    → cmd.name ≢ codes "QUIT"
    → (handle_cmd env k cmd).quit ≡ false
unfolding handle_cmd
handle_cmd-quit env k cmd h =
    on_verb-quit env k cmd.name cmd.args (verb cmd.name) (λ e. h (verb-quit cmd.name e))

-- Every event names the service and the peer.
abbrev pub IsFrom : Env → Event → Type 0
IsFrom env e =
    (e.protocol ≡ codes "redis") × (e.src_ip ≡ env.peer.ip) × (e.src_port ≡ env.peer.port)

abbrev pub Attributed : Env → List Event → Type 0
Attributed env es = All (IsFrom env) es × (length es ≤ 1)

hello_events-Attributed :
    (env : Env) (o : Option (Bytes × Bytes)) → Attributed env (hello_events env o)
unfolding hello_events
hello_events-Attributed env none = (tt, omega arith)
hello_events-Attributed env (some p) = (((refl, refl, refl), tt), omega arith)

nothing : (env : Env) → Attributed env []
nothing env = (tt, omega arith)

on_verb-Attributed :
    (env : Env) (k : Counters) (name : Bytes) (args : List Bytes) (v : Verb)
    → Attributed env (on_verb env k name args v).events
unfolding on_verb
on_verb-Attributed env k name args hello = hello_events-Attributed env _
on_verb-Attributed env k name [] ping = nothing env
on_verb-Attributed env k name (a ∷ []) ping = nothing env
on_verb-Attributed env k name (a ∷ b ∷ r) ping = nothing env
on_verb-Attributed env k name [] auth = nothing env
on_verb-Attributed env k name (a ∷ []) auth = nothing env
on_verb-Attributed env k name (a ∷ b ∷ r) auth = (((refl, refl, refl), tt), omega arith)
on_verb-Attributed env k name [] set = nothing env
on_verb-Attributed env k name (a ∷ []) set = nothing env
on_verb-Attributed env k name (a ∷ b ∷ []) set = nothing env
on_verb-Attributed env k name (a ∷ b ∷ c ∷ r) set = (((refl, refl, refl), tt), omega arith)
on_verb-Attributed env k name [] get = nothing env
on_verb-Attributed env k name (a ∷ []) get = nothing env
on_verb-Attributed env k name (a ∷ b ∷ r) get = nothing env
on_verb-Attributed env k name [] client = nothing env
on_verb-Attributed env k name (a ∷ []) client = nothing env
on_verb-Attributed env k name (a ∷ b ∷ r) client = nothing env
on_verb-Attributed env k name args flush = (((refl, refl, refl), tt), omega arith)
on_verb-Attributed env k name args probe = (((refl, refl, refl), tt), omega arith)
on_verb-Attributed env k name args unknown = (((refl, refl, refl), tt), omega arith)
on_verb-Attributed env k name args _ = nothing env

-- A command is logged at most once, and always as from this peer, on the Redis service; a command
-- that the switch does not know is logged by its name.
pub handle_cmd-Attributed :
    (env : Env) (k : Counters) (cmd : Command)
    → Attributed env (handle_cmd env k cmd).events
      × (verb cmd.name ≡ unknown
          → (handle_cmd env k cmd).events ≡ record (event env) { command = cmd.name } ∷ [])
unfolding handle_cmd
handle_cmd-Attributed env k cmd =
    (on_verb-Attributed env k cmd.name cmd.args (verb cmd.name), λ e. rw e (unfold on_verb in refl))
