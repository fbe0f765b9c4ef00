-- ===== src/Config/Loaded.antt =====
-- What holds of a configuration that `Load` returns, and of the servers made from it.
use white_toyota_tacoma.Common.{
  ℕ, zero, suc, ◌≡◌, ◌≢◌, refl, sym, ap, ◌∙◌, Bool, true, false, ◌&&◌, [], ◌∷◌, arith,
}
use white_toyota_tacoma.Common.Int.{ℤ, pos, negsuc, ltb_ℤ}
use white_toyota_tacoma.Common.Bytes.{Bytes, same}
use white_toyota_tacoma.Common.Result.{Result, ok, Error, reject, >>=-eq-ok}
use white_toyota_tacoma.Config.{Config, validate, text_or, number_or, apply_defaults, load}
use white_toyota_tacoma.Server.{new}

abbrev pub IsPositive : ℤ → Type 0
IsPositive n = (m : ℕ) × (n ≡ pos (suc m))

-- Nothing that the services need is missing. (A negative port is let through.)
abbrev pub IsComplete : Config → Type 0
IsComplete c =
    (c.listen_addr ≢ [])
    × (c.log_file ≢ [])
    × IsPositive c.max_connections
    × IsPositive c.connection_timeout_secs
    × IsPositive c.max_request_body_bytes
    × (c.redis.port ≢ pos 0)
    × (c.mysql.port ≢ pos 0)
    × (c.postgres.port ≢ pos 0)
    × (c.mongodb.port ≢ pos 0)
    × (c.elasticsearch.port ≢ pos 0)
    × (c.couchdb.port ≢ pos 0)
    × (c.elasticsearch.node_name ≢ [])
    × (c.webhook.enabled ≡ true → c.webhook.url ≢ [])
    × (c.elasticsearch.cluster_name ≢ [])
    × (c.redis.version ≢ [])
    × (c.mysql.version ≢ [])
    × (c.postgres.version ≢ [])
    × (c.mongodb.version ≢ [])
    × (c.elasticsearch.version ≢ [])
    × (c.couchdb.version ≢ [])

text_or-ne-nil : (s : Bytes) (b : ℕ) (d : Bytes) → text_or s (b ∷ d) ≢ []
text_or-ne-nil [] b d e = cc
text_or-ne-nil (c ∷ s) b d e = cc

number_or-ne-zero : (n : ℤ) (d : ℕ) → number_or n (suc d) ≢ pos 0
number_or-ne-zero (pos zero) d e = cc
number_or-ne-zero (pos (suc n)) d e = cc
number_or-ne-zero (negsuc n) d e = cc

number_or-IsPositive : (n : ℤ) (d : ℕ) → ltb_ℤ n (pos 0) ≡ false → IsPositive (number_or n (suc d))
number_or-IsPositive (pos zero) d h = (d, refl)
number_or-IsPositive (pos (suc n)) d h = (n, refl)
number_or-IsPositive (negsuc n) d h = absurd (ground arith)

reject-eq-ok : (b : Bool) (e : Error) {u : Unit {0}} → reject b e ≡ ok u → b ≡ false
reject-eq-ok true e h = cc
reject-eq-ok false e h = refl

-- The checks that `validate` makes.
validate-eq-ok :
    (c : Config) {u : Unit {0}}
    → validate c ≡ ok u
    → (ltb_ℤ c.max_connections (pos 0) ≡ false)
      × (ltb_ℤ c.connection_timeout_secs (pos 0) ≡ false)
      × (ltb_ℤ c.max_request_body_bytes (pos 0) ≡ false)
      × ((c.webhook.enabled && same c.webhook.url []) ≡ false)
unfolding validate
validate-eq-ok c h =
    let (a, ea, h₁) = >>=-eq-ok (reject _ _) _ h in
    let (b, eb, h₂) = >>=-eq-ok (reject _ _) _ h₁ in
    let (d, ed, h₃) = >>=-eq-ok (reject _ _) _ h₂ in
    (reject-eq-ok _ _ ea, reject-eq-ok _ _ eb, reject-eq-ok _ _ ed, reject-eq-ok _ _ h₃)

has_url :
    (enabled : Bool) (url : Bytes) → (enabled && same url []) ≡ false → enabled ≡ true → url ≢ []
unfolding same
has_url false url h e = cc
has_url true [] h e = cc
has_url true (b ∷ url) h e = λ n. cc

apply_defaults-IsComplete : (c : Config) → validate c ≡ ok tt → IsComplete (apply_defaults c)
unfolding apply_defaults
apply_defaults-IsComplete c h =
    let (conns, secs, body, hook) = validate-eq-ok c h in
    (
      text_or-ne-nil c.listen_addr _ _,
      text_or-ne-nil c.log_file _ _,
      number_or-IsPositive c.max_connections _ conns,
      number_or-IsPositive c.connection_timeout_secs _ secs,
      number_or-IsPositive c.max_request_body_bytes _ body,
      number_or-ne-zero c.redis.port _,
      number_or-ne-zero c.mysql.port _,
      number_or-ne-zero c.postgres.port _,
      number_or-ne-zero c.mongodb.port _,
      number_or-ne-zero c.elasticsearch.port _,
      number_or-ne-zero c.couchdb.port _,
      text_or-ne-nil c.elasticsearch.node_name _ _,
      has_url c.webhook.enabled c.webhook.url hook,
      text_or-ne-nil c.elasticsearch.cluster_name _ _,
      text_or-ne-nil c.redis.version _ _,
      text_or-ne-nil c.mysql.version _ _,
      text_or-ne-nil c.postgres.version _ _,
      text_or-ne-nil c.mongodb.version _ _,
      text_or-ne-nil c.elasticsearch.version _ _,
      text_or-ne-nil c.couchdb.version _ _,
    )

loaded :
    (decoded : Result Config) (c : Config)
    → load decoded ≡ ok c
    → (c₀ : Config) × (decoded ≡ ok c₀) × (validate c₀ ≡ ok tt) × (apply_defaults c₀ ≡ c)
unfolding load
loaded decoded c h =
    let (c₀, e, h₁) = >>=-eq-ok decoded _ h in
    let (u, v, h₂) = >>=-eq-ok (validate c₀) _ h₁ in (c₀, e, v, cc)

-- A configuration that loads is complete: the address, the log file, every port and every version,
-- and the names of the Elasticsearch cluster and its node are set, the three limits are above 0, and
-- a webhook that is enabled has a URL.
pub load-IsComplete : (decoded : Result Config) (c : Config) → load decoded ≡ ok c → IsComplete c
load-IsComplete decoded c h =
    let (c₀, e, v, d) = loaded decoded c h in rw d at (apply_defaults-IsComplete c₀ v)

pub new-positive : (n : ℤ) → IsPositive n → pos (new n).max_conns ≡ n
unfolding new
new-positive n (m, e) = rw e refl

-- The capacity of a server that is made from a configuration that loads is the number in the
-- file, or 200 where the file has 0 or none; the 500 of `New` is never used.
pub load-capacity :
    (decoded : Result Config) (c : Config)
    → load decoded ≡ ok c
    → (c₀ : Config) × (decoded ≡ ok c₀)
      × (pos (new c.max_connections).max_conns ≡ number_or c₀.max_connections 200)
unfolding apply_defaults
load-capacity decoded c h =
    let (c₀, e, v, d) = loaded decoded c h in
    let complete = load-IsComplete decoded c h in
    (c₀, e, new-positive c.max_connections complete.2 ∙ ap (λ x. x.max_connections) (sym d))
