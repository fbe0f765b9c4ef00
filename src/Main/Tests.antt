-- ===== src/Main/Tests.antt =====
-- The program on a small configuration.
use white_toyota_tacoma.Common.{◌≡◌, refl, true, false, Option, none, some, []}
use white_toyota_tacoma.Common.Int.{pos, negsuc}
use white_toyota_tacoma.Common.Bytes.{Bytes, codes, index_byte}
use white_toyota_tacoma.Config.{Config, Service, apply_defaults}
use white_toyota_tacoma.Main.{join_host_port, seconds}

abbrev service : Service
service = record { enabled = true; port = pos 0; version = [] }

-- Two services, and a webhook whose certificate is not to be verified.
abbrev given : Config
given = record {
  listen_addr = codes "::1";
  log_file = [];
  max_connections = pos 0;
  connection_timeout_secs = pos 0;
  max_request_body_bytes = pos 0;
  redis = record { enabled = false; port = pos 0; version = []; require_pass = [] };
  mysql = service;
  postgres = record service { enabled = false };
  mongodb = record service { enabled = false };
  elasticsearch = record {
    enabled = false;
    port = pos 0;
    version = [];
    cluster_name = [];
    node_name = [];
  };
  couchdb = service;
  webhook = record {
    enabled = true;
    url = codes "https://siem.example/in";
    auth_header = codes "Bearer x";
    tls_verify = false;
  };
}

abbrev config : Config
config = apply_defaults given

-- A host of IPv6 is put into brackets.
brackets : join_host_port (codes "::1") (codes "80") ≡ codes "[::1]:80"
unfolding join_host_port index_byte
brackets = refl

-- The number of seconds is not checked, and a large one wraps around.
wraps : seconds (pos 9223372037) ≡ negsuc 9223372036709551615
unfolding seconds
wraps = refl

abbrev unmarshal : Bytes → Option (Bytes × Bytes)
unmarshal body = none

abbrev opened : Bytes → Option Bytes
opened name = some []
