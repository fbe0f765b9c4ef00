-- ===== src/Config/Tests.antt =====
-- A configuration with everything left out, and one that is refused.
use white_toyota_tacoma.Common.{◌≡◌, refl, true, false, []}
use white_toyota_tacoma.Common.Int.{pos, negsuc}
use white_toyota_tacoma.Common.Result.{ok, err, failure}
use white_toyota_tacoma.Config.{Config, Service, number_or, validate, apply_defaults, load}
use white_toyota_tacoma.Config.Loaded.{IsComplete, load-IsComplete, load-capacity}
use white_toyota_tacoma.Server.{new}

abbrev service : Service
service = record { enabled = true; port = pos 0; version = [] }

abbrev empty : Config
empty = record {
  listen_addr = [];
  log_file = [];
  max_connections = pos 0;
  connection_timeout_secs = pos 0;
  max_request_body_bytes = pos 0;
  redis = record { enabled = true; port = pos 0; version = []; require_pass = [] };
  mysql = service;
  postgres = service;
  mongodb = service;
  elasticsearch = record {
    enabled = false;
    port = pos 0;
    version = [];
    cluster_name = [];
    node_name = [];
  };
  couchdb = service;
  webhook = record { enabled = false; url = []; auth_header = []; tls_verify = false };
}

refuses :
    load (ok (record empty { max_connections = negsuc 4 }))
    ≡ err (failure "max_connections must be >= 0")
unfolding load validate
refuses = refl

loads : load (ok empty) ≡ ok (apply_defaults empty)
unfolding load validate
loads = refl

load-IsComplete_example : IsComplete (apply_defaults empty)
load-IsComplete_example = load-IsComplete (ok empty) (apply_defaults empty) loads

load-capacity_example :
    (c₀ : Config) × (ok empty ≡ ok c₀)
    × (pos (new (apply_defaults empty).max_connections).max_conns
        ≡ number_or c₀.max_connections 200)
load-capacity_example = load-capacity (ok empty) (apply_defaults empty) loads
