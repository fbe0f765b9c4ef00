-- ===== src/Http/Tests.antt =====
-- The HTTP services on small requests.
use white_toyota_tacoma.Common.{
  ◌≤◌, ◌≡◌, ◌≢◌, refl, true, none, some, [], ◌∷◌, ◌++◌, if◌then◌else◌, length, arith,
}
use white_toyota_tacoma.Common.Int.{pos, pos_part}
use white_toyota_tacoma.Common.Bytes.{Bytes, codes, same}
use white_toyota_tacoma.Common.Result.{ok, err, panic}
use white_toyota_tacoma.Conn.{Peer}
use white_toyota_tacoma.Fingerprint.{new}
use white_toyota_tacoma.Http.Message.{Request, Response, read_limited_body}
use white_toyota_tacoma.Http.Message.Logged.{captured, read_limited_body_bounds}
use white_toyota_tacoma.Http.Mux.{has_prefix}
use white_toyota_tacoma.Http.Serve.{handled}
use white_toyota_tacoma.Http.BasicAuth.RoundTrip.{base64}
use white_toyota_tacoma.Http.Elasticsearch.Documents as Documents
use white_toyota_tacoma.Http.Elasticsearch.Service as Elasticsearch
use white_toyota_tacoma.Http.Elasticsearch.Routing.{redirected_to}
use white_toyota_tacoma.Http.Elasticsearch.Logs.{is_silent, outcome, es_serve_logs}
use white_toyota_tacoma.Http.Couchdb as Couchdb
use white_toyota_tacoma.Http.Couchdb.Login.{
  post, to_session, welcomed, anonymous, attempt, attempted, couch_login_json, couch_login_basic,
  couch_login_lost,
}
use white_toyota_tacoma.Http.Faultless.{http_ne_panic}
use white_toyota_tacoma.Fingerprint.Sample.{drawn}

abbrev peer : Peer
peer = record { ip = codes "203.0.113.9"; port = 40000 }

abbrev es : Documents.Env
es = record {
  fp = new (codes "node-1") drawn;
  cfg = record {
    version = codes "8.13.0";
    cluster_name = codes "logs";
    node_name = codes "node-1";
  };
  store = true;
  max_body_bytes = pos 8;
}

-- A decoder that knows two bodies.
abbrev couch : Couchdb.Env
couch = record {
  fp = new (codes "node-1") drawn;
  version = codes "3.3.3";
  store = true;
  max_body_bytes = pos 100;
  unmarshal = λ body. elim body [
    | [] ↦ none
    | c ∷ [] ↦ some (codes "root", codes "toor")
    | c ∷ d ∷ rest ↦ some ([], [])
  ];
}

abbrev search : Request
search = record {
  method = codes "POST";
  path = codes "/_search";
  peer = peer;
  authorization = [];
  body = some (codes "{\"query\":{}}");
}

abbrev create : Request
create = record search { method = codes "PUT"; path = codes "/users/42" }

es_serve_logs_example :
    (w : Response) × (Elasticsearch.serve es search
      ≡ outcome (redirected_to search.method search.path) w (
          if is_silent search.path
          then []
          else captured Elasticsearch.proto es.max_body_bytes search ∷ []))
unfolding has_prefix
es_serve_logs_example = es_serve_logs es search refl refl

couch_login_json_example :
    Couchdb.serve couch (to_session (codes "POST") peer [] (some (codes "1")))
    ≡ handled (
        ok (
          if same (codes "POST") (codes "POST")
          then (welcomed (codes "root"), attempted peer (codes "root", codes "toor"))
          else (anonymous, [])))
couch_login_json_example =
    couch_login_json couch (codes "POST") peer [] (some (codes "1")) (codes "root") (codes "toor")
      refl refl

abbrev header : Bytes
header = codes "Basic " ++ base64 (codes "root" ++ b':' ∷ codes "to:or")

couch_login_basic_example :
    Couchdb.serve couch (post peer header none)
    ≡ handled (ok (welcomed (codes "root"), attempt peer (codes "root") (codes "to:or") ∷ []))
unfolding same
couch_login_basic_example =
    couch_login_basic couch peer none (codes "root") (codes "to:or") refl refl (omega arith)
      (omega arith) refl

couch_login_lost_example :
    Couchdb.serve couch (post peer header (some (codes "{}"))) ≡ handled (ok (welcomed [], []))
couch_login_lost_example =
    couch_login_lost couch peer (some (codes "{}")) (codes "root") (codes "to:or") refl refl

http_ne_panic_example :
    (Elasticsearch.serve es search ≢ handled (err panic))
    × (Couchdb.serve couch search ≢ handled (err panic))
http_ne_panic_example = http_ne_panic es couch (codes "node-1") drawn search refl refl refl refl

read_limited_body_bounds_example :
    (length (read_limited_body (pos 8) search).0 ≤ pos_part (pos 8))
    × ((read_limited_body (pos 8) (read_limited_body (pos 8) search).1).0
        ≡ (read_limited_body (pos 8) search).0)
read_limited_body_bounds_example = read_limited_body_bounds (pos 8) search
