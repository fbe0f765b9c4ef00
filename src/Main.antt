-- ===== src/Main.antt =====
-- cmd/tacoma/main.go: what the program starts from its configuration. Flags, signals and the wait
-- for the services to end are left out.
pub mod Services
pub mod Starts
mod Tests
use white_toyota_tacoma.Common.{
  ℕ, suc, ◌+◌, ◌-◌, ◌*◌, ◌%◌, Bool, true, false, Option, none, some, List, [], ◌∷◌, ◌++◌, ltb, ◌==◌,
  if◌then◌else◌,
}
use white_toyota_tacoma.Common.Int.{ℤ, pos, negsuc}
use white_toyota_tacoma.Common.Bytes.{Bytes, codes, slice, index_byte}
use white_toyota_tacoma.Common.Decimal.{format_int}
use white_toyota_tacoma.Common.Result.{Result, ok, err, Error, ◌>>=◌}
use white_toyota_tacoma.Capture.{Store}
use white_toyota_tacoma.Capture.Webhook as Webhook
use white_toyota_tacoma.Capture.Webhook.{WebhookClient, new_webhook}
use white_toyota_tacoma.Config.{Config, Service, load}
use white_toyota_tacoma.Fingerprint as Fingerprint
use white_toyota_tacoma.Fingerprint.{Fp, Drawn}
use white_toyota_tacoma.Server as Server
use white_toyota_tacoma.Server.{Server}
use white_toyota_tacoma.Http.Elasticsearch.Documents as Elasticsearch
use white_toyota_tacoma.Http.Couchdb as Couchdb

-- `net.JoinHostPort`
unfoldable pub join_host_port : Bytes → Bytes → Bytes
join_host_port host port = elim (index_byte host b':') [
  | none ↦ host ++ b':' ∷ port
  | some i ↦ b'[' ∷ (host ++ b']' ∷ b':' ∷ port)
]

-- An `int64` from its value modulo 2^64.
wrapped : ℕ → ℤ
wrapped n = if ltb n 9223372036854775808 then pos n else negsuc (18446744073709551616 - n - 1)

-- `time.Duration(secs) * time.Second`, which is in nanoseconds and wraps around.
unfoldable pub seconds : ℤ → ℤ
unfolding wrapped
seconds (pos n) = wrapped (n * 1000000000 % 18446744073709551616)
seconds (negsuc n) =
    wrapped (18446744073709551616 - 1 - (suc n * 1000000000 - 1) % 18446744073709551616)

pub data Protocol : Type 0 where
  redis mysql postgres mongodb elasticsearch couchdb : Protocol

-- A service of `server.New`, with what its handler is given beside the store.
pub record TcpService : Type 0 where
  pub protocol : Protocol
  pub address : Bytes
  pub version : Bytes
  pub fp : Fp
  pub conn_timeout : ℤ
  pub server : Server

-- A service that is started in a goroutine of its own.
pub data Started : Type 0 where
  tcp : TcpService → Started
  es_http : Bytes → Elasticsearch.Env → Started
  couch_http : Bytes → Couchdb.Env → Started

abbrev pub started_protocol : Started → Protocol
started_protocol (tcp s) = s.protocol
started_protocol (es_http address env) = elasticsearch
started_protocol (couch_http address env) = couchdb

abbrev address_of : Config → ℤ → Bytes
address_of cfg port = join_host_port cfg.listen_addr (format_int port)

-- One `if cfg.X.Enabled { … }` behind the other.
unfoldable pub start_all : List (Bool × Started) → List Started
start_all [] = []
start_all ((false, s) ∷ rest) = start_all rest
start_all ((true, s) ∷ rest) = s ∷ start_all rest

tcp_service : Config → Fp → Protocol → ℤ → Bytes → Started
unfolding join_host_port seconds Server.new
tcp_service cfg fp protocol port version = tcp (record {
  protocol = protocol;
  address = address_of cfg port;
  version = version;
  fp = fp;
  conn_timeout = seconds cfg.connection_timeout_secs;
  server = Server.new cfg.max_connections;
})

-- What `ServeElasticsearch` and `ServeCouchDB` are given; the store is not nil.
abbrev pub es_env : Config → Fp → Elasticsearch.Env
es_env cfg fp = record {
  fp = fp;
  cfg = record {
    version = cfg.elasticsearch.version;
    cluster_name = cfg.elasticsearch.cluster_name;
    node_name = cfg.elasticsearch.node_name;
  };
  store = true;
  max_body_bytes = cfg.max_request_body_bytes;
}

abbrev pub couch_env : (Bytes → Option (Bytes × Bytes)) → Config → Fp → Couchdb.Env
couch_env unmarshal cfg fp = record {
  fp = fp;
  version = cfg.couchdb.version;
  store = true;
  max_body_bytes = cfg.max_request_body_bytes;
  unmarshal = unmarshal;
}

es_service : Config → Fp → Started
es_service cfg fp = es_http (address_of cfg cfg.elasticsearch.port) (es_env cfg fp)

couch_service : (Bytes → Option (Bytes × Bytes)) → Config → Fp → Started
couch_service unmarshal cfg fp =
    couch_http (address_of cfg cfg.couchdb.port) (couch_env unmarshal cfg fp)

-- The services in the order of `main`.
unfoldable pub candidates : (Bytes → Option (Bytes × Bytes)) → Config → Fp → List (Bool × Started)
unfolding tcp_service es_service couch_service
candidates unmarshal cfg fp =
    (cfg.redis.enabled, tcp_service cfg fp redis cfg.redis.port cfg.redis.version)
    ∷ (cfg.mysql.enabled, tcp_service cfg fp mysql cfg.mysql.port cfg.mysql.version)
    ∷ (cfg.postgres.enabled, tcp_service cfg fp postgres cfg.postgres.port cfg.postgres.version)
    ∷ (cfg.mongodb.enabled, tcp_service cfg fp mongodb cfg.mongodb.port cfg.mongodb.version)
    ∷ (cfg.elasticsearch.enabled, es_service cfg fp)
    ∷ (cfg.couchdb.enabled, couch_service unmarshal cfg fp)
    ∷ []

-- The webhook, if it is enabled.
unfoldable pub configured_webhook : Config → Result (Option WebhookClient)
unfolding new_webhook
configured_webhook cfg =
    if cfg.webhook.enabled
    then (do
      (w, warned) ← new_webhook cfg.webhook.url cfg.webhook.auth_header cfg.webhook.tls_verify
      ok (some w))
    else ok none

pub record Running : Type 0 where
  pub store : Store
  pub webhook : Option WebhookClient
  pub services : List Started
  -- What the log shows of the fingerprint.
  pub node_id : Bytes
  pub pid : ℕ

-- `main`, up to where it waits. `err` is a `log.Fatalf`, or a panic. `opened` is what a log file of
-- this name holds, `none` where it does not open.
unfoldable pub main :
    (Bytes → Option (Bytes × Bytes))
    → (Bytes → Option Bytes)
    → Drawn
    → Result Config
    → Result Running
unfolding configured_webhook start_all candidates
main unmarshal opened drawn decoded = do
  cfg ← load decoded
  wh ← configured_webhook cfg
  store ← Webhook.new (opened cfg.log_file) wh
  let fp = Fingerprint.new cfg.elasticsearch.node_name drawn
  node_id ← slice fp.es_node_uuid 0 8
  ok (record {
    store = store;
    webhook = wh;
    services = start_all (candidates unmarshal cfg fp);
    node_id = node_id;
    pid = fp.redis_process_id;
  })
