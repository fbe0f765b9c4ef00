-- ===== src/Http/Elasticsearch/Service.antt =====
-- `ServeElasticsearch` and its handlers in internal/proto/http/handler.go.
use white_toyota_tacoma.Common.{List, [], ◌∷◌, if◌then◌else◌}
use white_toyota_tacoma.Common.Bytes.{Bytes, codes, same}
use white_toyota_tacoma.Common.Result.{ok, ◌>>=◌}
use white_toyota_tacoma.Http.Path.{sanitize_path}
use white_toyota_tacoma.Http.Message.{
  Request, Response, Handled, answer, log_http_event, write_json, status_ok, status_not_found,
}
use white_toyota_tacoma.Http.Mux.{route}
use white_toyota_tacoma.Http.Serve.{Served, serve_routed}
use white_toyota_tacoma.Http.Elasticsearch.Documents.{
  Env, root_doc, nodes_doc, health_doc, stats_doc, search_doc, xpack_doc, missing_doc,
}

abbrev pub proto : Bytes
proto = codes "elasticsearch"

-- `logHTTPEvent`, and then the response.
unfoldable pub logged : Env → Request → Response → Handled
logged env r w = do done ← log_http_event env.store proto env.max_body_bytes r; ok (w, done.0)

-- `esCatHandler`
unfoldable pub cat_response : Response
cat_response = record {
  status = status_ok;
  headers = (codes "Content-Type", codes "text/plain; charset=UTF-8") ∷ [];
  body = [];
}

-- `esCatchAllHandler`
unfoldable pub catch_all : Env → Request → Handled
unfolding logged missing_doc write_json
catch_all env r =
    let w = write_json status_not_found (missing_doc (sanitize_path r.path)) in
    if env.store then logged env r w else answer w

-- The handlers that the mux is given.
pub data Handler : Type 0 where
  nodes cluster_health cluster_stats cat search_index xpack root : Handler

unfoldable pub run : Env → Handler → Request → Handled
unfolding root_doc nodes_doc health_doc stats_doc search_doc xpack_doc catch_all logged write_json
    cat_response
run env nodes r = answer (write_json status_ok (nodes_doc env))
run env cluster_health r = answer (write_json status_ok (health_doc env))
run env cluster_stats r = answer (write_json status_ok (stats_doc env))
run env cat r = logged env r cat_response
run env search_index r = logged env r (write_json status_ok search_doc)
run env xpack r = answer (write_json status_ok (xpack_doc env))
run env root r =
    if same r.path (codes "/")
    then answer (write_json status_ok (root_doc env))
    else catch_all env r

abbrev pub routes : List (Bytes × Handler)
routes =
    (codes "/_nodes", nodes)
    ∷ (codes "/_nodes/", nodes)
    ∷ (codes "/_cluster/health", cluster_health)
    ∷ (codes "/_cluster/stats", cluster_stats)
    ∷ (codes "/_cat/", cat)
    ∷ (codes "/_search", search_index)
    ∷ (codes "/_xpack", xpack)
    ∷ (codes "/", root)
    ∷ []

unfoldable pub serve : Env → Request → Served
unfolding serve_routed route run
serve env r = serve_routed (run env) (route routes r.method r.path) r
