-- ===== src/Config.antt =====
-- internal/config/config.go: the configuration, its checks and its defaults, and the reader that
-- bounds the file. What `encoding/json` makes of the file is an argument of `load`.
pub mod Loaded
pub mod Limit
mod Tests
use white_toyota_tacoma.Common.{
  ℕ, zero, suc, ◌+◌, ◌-◌, ◌*◌, ◌≤◌, ◌<◌, ◌==◌, ltb, Bool, true, false, ◌&&◌, Option, none, some,
  List, [], ◌∷◌, if◌then◌else◌,
}
use white_toyota_tacoma.Common.Int.{ℤ, pos, negsuc, ltb_ℤ}
use white_toyota_tacoma.Common.Bytes.{Bytes, codes, same}
use white_toyota_tacoma.Common.Result.{Result, ok, err, Error, failure, ◌>>=◌, ◌>>◌, reject}

pub record Redis : Type 0 where
  pub enabled : Bool
  pub port : ℤ
  pub version : Bytes
  pub require_pass : Bytes

-- `MySQL`, `Postgres`, `MongoDB` and `CouchDB`, which have the same fields.
pub record Service : Type 0 where
  pub enabled : Bool
  pub port : ℤ
  pub version : Bytes

pub record Elasticsearch : Type 0 where
  pub enabled : Bool
  pub port : ℤ
  pub version : Bytes
  pub cluster_name : Bytes
  pub node_name : Bytes

pub record Webhook : Type 0 where
  pub enabled : Bool
  pub url : Bytes
  pub auth_header : Bytes
  pub tls_verify : Bool

pub record Config : Type 0 where
  pub listen_addr : Bytes
  pub log_file : Bytes
  pub max_connections : ℤ
  pub connection_timeout_secs : ℤ
  pub max_request_body_bytes : ℤ
  pub redis : Redis
  pub mysql : Service
  pub postgres : Service
  pub mongodb : Service
  pub elasticsearch : Elasticsearch
  pub couchdb : Service
  pub webhook : Webhook

unfoldable pub validate : Config → Result (Unit {0})
validate c = do
  reject (ltb_ℤ c.max_connections (pos 0)) (failure "max_connections must be >= 0")
  reject (ltb_ℤ c.connection_timeout_secs (pos 0))
      (failure "connection_timeout_seconds must be >= 0")
  reject (ltb_ℤ c.max_request_body_bytes (pos 0)) (failure "max_request_body_bytes must be >= 0")
  reject (c.webhook.enabled && same c.webhook.url [])
      (failure "webhook.url required when webhook.enabled is true")

-- `if s == "" { s = d }`
abbrev pub text_or : Bytes → Bytes → Bytes
text_or [] d = d
text_or (b ∷ s) d = b ∷ s

-- `if n == 0 { n = d }`
abbrev pub number_or : ℤ → ℕ → ℤ
number_or (pos zero) d = pos d
number_or (pos (suc n)) d = pos (suc n)
number_or (negsuc n) d = negsuc n

abbrev pub service_or : Service → ℕ → Bytes → Service
service_or s port version = record s {
  port = number_or s.port port;
  version = text_or s.version version;
}

unfoldable pub apply_defaults : Config → Config
apply_defaults c = record c {
  listen_addr = text_or c.listen_addr (codes "0.0.0.0");
  log_file = text_or c.log_file (codes "tacoma-events.json");
  max_connections = number_or c.max_connections 200;
  connection_timeout_secs = number_or c.connection_timeout_secs 30;
  max_request_body_bytes = number_or c.max_request_body_bytes 1048576;
  redis = record c.redis {
    port = number_or c.redis.port 6379;
    version = text_or c.redis.version (codes "7.2.4");
  };
  mysql = service_or c.mysql 3306 (codes "8.0.36");
  postgres = service_or c.postgres 5432 (codes "16.2");
  mongodb = service_or c.mongodb 27017 (codes "7.0.8");
  elasticsearch = record c.elasticsearch {
    port = number_or c.elasticsearch.port 9200;
    version = text_or c.elasticsearch.version (codes "8.13.2");
    cluster_name = text_or c.elasticsearch.cluster_name (codes "production");
    node_name = text_or c.elasticsearch.node_name (codes "node-1");
  };
  couchdb = service_or c.couchdb 5984 (codes "3.3.3");
}

-- `Load`, from what the decoder returns; an error of opening the file is one of these too.
unfoldable pub load : Result Config → Result Config
load decoded = do c ← decoded; validate c; ok (apply_defaults c)

-- The reader below a `limitedReader`, a parameter: for a buffer of this length, the bytes it
-- returns, and whether it fails.
abbrev pub Inner : Type 0
Inner = ℕ → ℕ × Option Error

-- `limitedReader.Read` on a buffer of `len` bytes, with `n` bytes to go: the count and the error
-- that it returns, and the bytes then to go. The count `n` is 0 where Go's is 0 or below, which
-- the method treats alike.
unfoldable pub read : Inner → ℕ → ℕ → (ℕ × Option Error) × ℕ
read inner len n =
    if n == 0
    then ((0, some (failure "config file exceeds size limit")), 0)
    else if ltb n len
    then (inner n, n - (inner n).0)
    else (inner len, n - (inner len).0)

-- The limit that `Load` sets.
abbrev pub file_limit : ℕ
file_limit = 1048576

-- The bytes that a decoder gets with buffers of these lengths. The reader below may answer each
-- read as it likes.
unfoldable pub total_read : List (ℕ × Inner) → ℕ → ℕ
unfolding read
total_read [] n = 0
total_read ((len, inner) ∷ reads) n = let r = read inner len n in r.0.0 + total_read reads r.1
