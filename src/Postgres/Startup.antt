-- ===== src/Postgres/Startup.antt =====
-- `doStartup` and `parseStartupParams` of internal/proto/postgres/handler.go. The slices of
-- `parseStartupParams` end at a byte that `indexByte` found, so they are in range.
pub mod Params
pub mod Login
use white_toyota_tacoma.Common.{
  ℕ, zero, suc, ◌+◌, ◌-◌, ◌*◌, ◌/◌, ◌%◌, Bool, true, false, ◌||◌, Option, none, some, List, [], ◌∷◌,
  ◌++◌, ltb, ◌==◌, if◌then◌else◌, length, take, drop,
}
use white_toyota_tacoma.Common.Bytes.{Bytes, codes, uint32_be, index_byte, same}
use white_toyota_tacoma.Common.Result.{Result, ok, err, failure, reject}
use white_toyota_tacoma.Conn.{Conn, M, ◌>>=◌, ◌>>◌, pure, throw, lift, receive, send}

-- A `map[string]string`. A missing key reads as the empty string.
abbrev pub Params : Type 0
Params = List (Bytes × Bytes)

pub lookup : Bytes → Params → Bytes
lookup key [] = []
lookup key ((k, v) ∷ m) = if same k key then v else lookup key m

pub insert : Bytes → Bytes → Params → Params
insert key v [] = (key, v) ∷ []
insert key v ((k, w) ∷ m) = if same k key then (k, v) ∷ m else (k, w) ∷ insert key v m

-- `if key != "" { params[key] = val }`
pub add_param : Bytes → Bytes → Params → Params
add_param [] v m = m
add_param (b ∷ key) v m = insert (b ∷ key) v m

with_value : (Bytes → Params → Params) → Bytes → Bytes → Params → Option ℕ → Params
with_value rest key text m none = m
with_value rest key text m (some vi) = rest (drop (vi + 1) text) (add_param key (take vi text) m)

on_value : (Bytes → Params → Params) → Bytes → Bytes → Params → Params
on_value rest key [] m = m
on_value rest key (b ∷ text) m = with_value rest key (b ∷ text) m (index_byte (b ∷ text) 0)

on_key : (Bytes → Params → Params) → Bytes → Params → Option ℕ → Params
on_key rest text m none = m
on_key rest text m (some ki) = on_value rest (take ki text) (drop (ki + 1) text) m

-- The loop, whose rounds are bounded by the fuel.
pub params_from : ℕ → Bytes → Params → Params
params_from zero text m = m
params_from (suc fuel) text m =
    let rest = params_from fuel in
    if ltb 1 (length text) then on_key rest text m (index_byte text 0) else m

-- A round takes two bytes, so this fuel is enough.
pub parse_startup_params : Bytes → Params
parse_startup_params text = params_from (length text) text []

pub record Account : Type 0 where
  pub username : Bytes
  pub database : Bytes

-- `if database == "" { database = username }`
abbrev pub database_or : Bytes → Bytes → Bytes
database_or [] username = username
database_or (b ∷ database) username = b ∷ database

abbrev pub account_of : Params → Account
account_of m = record {
  username = lookup (codes "user") m;
  database = database_or (lookup (codes "database") m) (lookup (codes "user") m);
}

abbrev pub max_startup_len : ℕ
max_startup_len = 10000

abbrev pub ssl_request : ℕ
ssl_request = 80877103

abbrev pub cancel_request : ℕ
cancel_request = 80877102

abbrev pub proto_version : ℕ
proto_version = 196608

-- `none` where the loop goes on.
on_request : ℕ → Bytes → M (Option Account)
on_request request body =
    if request == ssl_request
    then (send (codes "N") >> pure none)
    else if request == cancel_request
    then throw (failure "cancel request")
    else if request == proto_version
    then pure (some (account_of (parse_startup_params (drop 4 body))))
    else throw (failure "unknown startup request: %d")

with_body : Bytes → M (Option Account)
with_body body = do
  lift (reject (ltb (length body) 4) (failure "startup message body too short"))
  request ← lift (uint32_be body)
  on_request request body

with_len : ℕ → M (Option Account)
with_len msg_len = do
  lift (
      reject (ltb msg_len 8 || ltb max_startup_len msg_len)
        (failure "invalid startup message length: %d"))
  receive (msg_len - 4) >>= with_body

-- One round of the loop.
startup_round : M (Option Account)
startup_round = receive 4 >>= λ buf. lift (uint32_be buf) >>= with_len

again : M Account → Option Account → M Account
again rest none = rest
again rest (some a) = pure a

-- The loop, whose rounds are bounded by the fuel.
pub startup_loop : ℕ → M Account
startup_loop zero = throw (failure "out of fuel")
startup_loop (suc fuel) = let rest = startup_loop fuel in startup_round >>= again rest

-- A round takes four bytes, so this fuel is enough.
pub do_startup : M Account
do_startup c = startup_loop (suc (length c.input)) c
