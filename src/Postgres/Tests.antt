-- ===== src/Postgres/Tests.antt =====
-- The PostgreSQL service on small inputs.
use mathlib.Core.List.Permᴰ
use white_toyota_tacoma.Common.{
  suc, ◌+◌, ◌≡◌, refl, some, List, [], ◌∷◌, ◌++◌, length, replicate, All, arith,
}
use white_toyota_tacoma.Common.Bytes.{Bytes, codes, same}
use white_toyota_tacoma.Common.Result.{ok}
use white_toyota_tacoma.Conn.{Conn}
use white_toyota_tacoma.Conn.Loop.{loop, fuel_for}
use white_toyota_tacoma.Postgres.Message.{message, type_password}
use white_toyota_tacoma.Postgres.Startup.{lookup, parse_startup_params, params_from, do_startup}
use white_toyota_tacoma.Postgres.Startup.Params.{
  IsParam, param_list, lookup-parse_startup_params, params_from_total,
}
use white_toyota_tacoma.Postgres.Startup.Login.{
  account, after_ssl, startup_message, do_startup-startup,
}
use white_toyota_tacoma.Postgres.Session.{Env, params, round, handler}
use white_toyota_tacoma.Postgres.Session.Total.{postgres_loop_total}
use white_toyota_tacoma.Postgres.Session.Spec.{
  login_event, Request, query, extended, unknown, IsRequest, wire, all_logged, greeting, replies,
  writes,
}
use white_toyota_tacoma.Postgres.Session.Refinement.{postgres_handler_refines}

abbrev env : Env
env = record {
  peer = record { ip = codes "10.0.0.9"; port = 40000 };
  salt = 1 ∷ 2 ∷ 3 ∷ 4 ∷ [];
  backend_pid = 4242;
  cancel_key = 99;
  visited = params (codes "16.2");
}

-- A key twice, and no database.
abbrev given : List (Bytes × Bytes)
given = (codes "user", codes "me") ∷ (codes "user", codes "root") ∷ []

abbrev conn : Conn
conn = record { input = message 72 []; output = []; accepts = 4; alive = 4; events = [] }

abbrev requests : List Request
requests = query (codes "SELECT 1") ∷ extended 80 [] ∷ unknown 72 [] ∷ query (codes "SELECT 2") ∷ []

given-IsParam : All IsParam given
given-IsParam = (((λ e. cc), omega arith, omega arith), (((λ e. cc), omega arith, omega arith), tt))

lookup-parse_startup_params_example :
    lookup (codes "user") (parse_startup_params (param_list given)) ≡ codes "root"
unfolding same
lookup-parse_startup_params_example = lookup-parse_startup_params (codes "user") given given-IsParam

params_from_fuel : params_from 9 (codes "ab") [] ≡ params_from 2 (codes "ab") []
params_from_fuel = params_from_total (codes "ab") [] 9 (omega arith)

do_startup-startup_example :
    do_startup
      (record conn { input = after_ssl 2 (startup_message given ++ codes "rest"); accepts = 2 + 1 })
    ≡ (
      ok (account given),
      record conn { input = codes "rest"; output = conn.output ++ replicate 2 78; accepts = 1 },
    )
do_startup-startup_example =
    do_startup-startup given (codes "rest") 2 1 conn given-IsParam (omega arith)

postgres_loop_total_example :
    (d : Conn) × (loop 50 (round env) (account given) conn ≡ some d)
    × (loop (fuel_for conn) (round env) (account given) conn ≡ some d)
postgres_loop_total_example = postgres_loop_total env (account given) conn 50 (omega arith)

requests-IsRequest : All IsRequest requests
requests-IsRequest = (
  omega arith,
  (
    (omega arith, refl),
    ((omega arith, refl, (λ e. omega arith), (λ e. omega arith)), (omega arith, tt)),
  ),
)

postgres_handler_refines_example :
    handler env (record {
      input = after_ssl 1 (
          startup_message given
          ++ (message type_password (codes "md5ff" ++ 0 ∷ []) ++ wire requests));
      output = [];
      accepts = 1 + suc (suc (6 + suc (suc (writes requests 0))));
      alive = suc (length requests + 0);
      events = [];
    })
    ≡ some (record {
      input = [];
      output = greeting 1 env ++ replies requests;
      accepts = 0;
      alive = 0;
      events =
          login_event env (account given) (codes "md5ff") ∷ all_logged env (account given) requests;
    })
postgres_handler_refines_example =
    postgres_handler_refines env (codes "16.2") given (codes "md5ff") requests 1 0 0
      (Permᴰ.refl (params (codes "16.2"))) given-IsParam (omega arith) (omega arith) (omega arith)
      requests-IsRequest
