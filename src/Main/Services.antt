-- ===== src/Main/Services.antt =====
-- The services that `main` starts: how many of each protocol, and that each keeps to the
-- configuration.
use white_toyota_tacoma.Common.{
  ℕ, ◌+◌, ◌≤◌, ◌≡◌, ◌≢◌, refl, ap, ◌∙◌, Bool, true, false, Option, List, [], ◌∷◌, if◌then◌else◌,
  length, All, arith,
}
use white_toyota_tacoma.Common.Int.{ℤ, pos_part}
use white_toyota_tacoma.Common.Bytes.{Bytes}
use white_toyota_tacoma.Common.Result.{err, panic}
use white_toyota_tacoma.Config.{Config}
use white_toyota_tacoma.Config.Loaded.{IsPositive, new-positive}
use white_toyota_tacoma.Fingerprint as Fingerprint
use white_toyota_tacoma.Fingerprint.{Fp, Drawn}
use white_toyota_tacoma.Server.{Server, Reach}
use white_toyota_tacoma.Server.Limits.{slots, listener_slot}
use white_toyota_tacoma.Common.Decimal.{format_int}
use white_toyota_tacoma.Server.Serve.{Reach-limits}
use white_toyota_tacoma.Http.Message.{Request}
use white_toyota_tacoma.Http.Serve.{handled}
use white_toyota_tacoma.Http.Elasticsearch.Service as Elasticsearch
use white_toyota_tacoma.Http.Couchdb as Couchdb
use white_toyota_tacoma.Http.Faultless.{http_ne_panic}
use white_toyota_tacoma.Main.{
  join_host_port, Protocol, redis, mysql, postgres, mongodb, elasticsearch, couchdb, Started, tcp,
  es_http, couch_http, started_protocol, start_all, candidates, tcp_service, es_env, es_service,
  couch_env, couch_service,
}

abbrev pub is_enabled : Config → Protocol → Bool
is_enabled cfg redis = cfg.redis.enabled
is_enabled cfg mysql = cfg.mysql.enabled
is_enabled cfg postgres = cfg.postgres.enabled
is_enabled cfg mongodb = cfg.mongodb.enabled
is_enabled cfg elasticsearch = cfg.elasticsearch.enabled
is_enabled cfg couchdb = cfg.couchdb.enabled

abbrev is_protocol : Protocol → Protocol → Bool
is_protocol redis redis = true
is_protocol mysql mysql = true
is_protocol postgres postgres = true
is_protocol mongodb mongodb = true
is_protocol elasticsearch elasticsearch = true
is_protocol couchdb couchdb = true
is_protocol _ _ = false

-- How many services of a protocol there are.
pub started_count : Protocol → List Started → ℕ
started_count p [] = 0
started_count p (s ∷ ss) =
    (if is_protocol p (started_protocol s) then 1 else 0) + started_count p ss

abbrev port_of : Config → Protocol → ℤ
port_of cfg redis = cfg.redis.port
port_of cfg mysql = cfg.mysql.port
port_of cfg postgres = cfg.postgres.port
port_of cfg mongodb = cfg.mongodb.port
port_of cfg elasticsearch = cfg.elasticsearch.port
port_of cfg couchdb = cfg.couchdb.port

abbrev own_address : Config → Protocol → Bytes
own_address cfg p = join_host_port cfg.listen_addr (format_int (port_of cfg p))

-- A service at the address of its protocol. One over TCP never has more connections at once than the
-- configuration allows; one over HTTP reads no more of a body than it allows, and no request makes
-- it panic.
abbrev pub IsSound : Config → Started → Type 0
IsSound cfg (tcp s) =
    (s.address ≡ own_address cfg s.protocol)
    × ((t : Server)
        → Reach s.server t
        → slots t.tasks + listener_slot t.listener ≤ pos_part cfg.max_connections)
IsSound cfg (es_http address env) =
    (address ≡ own_address cfg elasticsearch)
    × (env.max_body_bytes ≡ cfg.max_request_body_bytes)
    × ((r : Request) → Elasticsearch.serve env r ≢ handled (err panic))
IsSound cfg (couch_http address env) =
    (address ≡ own_address cfg couchdb)
    × (env.max_body_bytes ≡ cfg.max_request_body_bytes)
    × ((r : Request) → Couchdb.serve env r ≢ handled (err panic))

-- How many of the candidates are of a protocol and enabled.
enabled_count : Protocol → List (Bool × Started) → ℕ
enabled_count p [] = 0
enabled_count p ((enabled, s) ∷ rest) =
    (if is_protocol p (started_protocol s) then (if enabled then 1 else 0) else 0)
    + enabled_count p rest

started_count-start_all :
    (p : Protocol) (cs : List (Bool × Started))
    → started_count p (start_all cs) ≡ enabled_count p cs
unfolding started_count start_all enabled_count
started_count-start_all p [] = refl
started_count-start_all p ((false, s) ∷ rest) = ground (arith, started_count-start_all p rest)
started_count-start_all p ((true, s) ∷ rest) = omega (arith, started_count-start_all p rest)

-- Each protocol has one candidate.
enabled_count-candidates :
    (unmarshal : Bytes → Option (Bytes × Bytes)) (cfg : Config) (fp : Fp) (p : Protocol)
    → enabled_count p (candidates unmarshal cfg fp) ≡ (if is_enabled cfg p then 1 else 0)
unfolding enabled_count candidates tcp_service es_service couch_service
enabled_count-candidates unmarshal cfg fp redis = omega arith
enabled_count-candidates unmarshal cfg fp mysql = omega arith
enabled_count-candidates unmarshal cfg fp postgres = omega arith
enabled_count-candidates unmarshal cfg fp mongodb = omega arith
enabled_count-candidates unmarshal cfg fp elasticsearch = omega arith
enabled_count-candidates unmarshal cfg fp couchdb = omega arith

start_all-IsSound :
    (cfg : Config) (cs : List (Bool × Started))
    → All (λ c. IsSound cfg c.1) cs
    → All (IsSound cfg) (start_all cs)
unfolding start_all
start_all-IsSound cfg [] h = tt
start_all-IsSound cfg ((false, s) ∷ rest) h = start_all-IsSound cfg rest h.1
start_all-IsSound cfg ((true, s) ∷ rest) h = (h.0, start_all-IsSound cfg rest h.1)

tcp_service-IsSound :
    (cfg : Config) (fp : Fp) (p : Protocol) (version : Bytes)
    → IsPositive cfg.max_connections
    → IsSound cfg (tcp_service cfg fp p (port_of cfg p) version)
unfolding tcp_service
tcp_service-IsSound cfg fp p version h = (
  refl,
  λ t r. omega (
    arith,
    (Reach-limits cfg.max_connections t r).0,
    ap pos_part (new-positive cfg.max_connections h),
  ),
)

candidates-IsSound :
    (unmarshal : Bytes → Option (Bytes × Bytes)) (cfg : Config) (host : Bytes) (d : Drawn)
    → IsPositive cfg.max_connections
    → length d.build_hash ≡ 20
    → All (λ c. IsSound cfg c.1) (candidates unmarshal cfg (Fingerprint.new host d))
unfolding candidates es_service couch_service
candidates-IsSound unmarshal cfg host d h n =
    let fp = Fingerprint.new host d in
    let tcp_sound = λ (p : Protocol) (version : Bytes). tcp_service-IsSound cfg fp p version h in
    let http_sound = λ (r : Request).
      http_ne_panic (es_env cfg fp) (couch_env unmarshal cfg fp) host d r refl refl n refl in
    (
      tcp_sound redis cfg.redis.version,
      (
        tcp_sound mysql cfg.mysql.version,
        (
          tcp_sound postgres cfg.postgres.version,
          (
            tcp_sound mongodb cfg.mongodb.version,
            ((refl, refl, λ r. (http_sound r).0), ((refl, refl, λ r. (http_sound r).1), tt)),
          ),
        ),
      ),
    )

pub services-count :
    (unmarshal : Bytes → Option (Bytes × Bytes)) (cfg : Config) (fp : Fp) (p : Protocol)
    → started_count p (start_all (candidates unmarshal cfg fp))
      ≡ (if is_enabled cfg p then 1 else 0)
services-count unmarshal cfg fp p =
    started_count-start_all p (candidates unmarshal cfg fp)
    ∙ enabled_count-candidates unmarshal cfg fp p

pub services-IsSound :
    (unmarshal : Bytes → Option (Bytes × Bytes)) (cfg : Config) (host : Bytes) (d : Drawn)
    → IsPositive cfg.max_connections
    → length d.build_hash ≡ 20
    → All (IsSound cfg) (start_all (candidates unmarshal cfg (Fingerprint.new host d)))
services-IsSound unmarshal cfg host d h n =
    start_all-IsSound cfg (candidates unmarshal cfg (Fingerprint.new host d))
      (candidates-IsSound unmarshal cfg host d h n)
