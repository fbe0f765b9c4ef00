-- ===== src/Http/Couchdb.antt =====
-- `ServeCouchDB` and its handlers in internal/proto/http/handler.go.
pub mod Login
pub mod Databases
use white_toyota_tacoma.Common.{
  ℕ, Bool, true, false, ◌&&◌, not, Option, none, some, List, [], ◌∷◌, ◌++◌, ◌==◌, if◌then◌else◌,
}
use white_toyota_tacoma.Common.Int.{ℤ}
use white_toyota_tacoma.Common.Bytes.{Bytes, codes, same, slice}
use white_toyota_tacoma.Common.Json.{
  null, text, number, boolean, list, object, nil, cons, Members, end, field,
}
use white_toyota_tacoma.Common.Result.{Result, ok, err, ◌>>=◌}
use white_toyota_tacoma.Capture.{Event, no_event}
use white_toyota_tacoma.Fingerprint.{Fp}
use white_toyota_tacoma.Http.Path.{sanitize_path}
use white_toyota_tacoma.Http.Message.{
  Request, Response, Handled, answer, read_limited_body, log_to, log_http_event,
  write_json_with_content_type, status_ok, status_created, status_method_not_allowed,
}
use white_toyota_tacoma.Http.BasicAuth.{basic_auth}
use white_toyota_tacoma.Http.Mux.{split_slash, route}
use white_toyota_tacoma.Http.Serve.{Served, serve_routed}

-- The arguments of `ServeCouchDB`; the store may be nil. `unmarshal` is `json.Unmarshal` into the
-- struct of a name and a password, `none` where it fails.
pub record Env : Type 0 where
  pub fp : Fp
  pub version : Bytes
  pub store : Bool
  pub max_body_bytes : ℤ
  pub unmarshal : Bytes → Option (Bytes × Bytes)

abbrev pub proto : Bytes
proto = codes "couchdb"

unfoldable pub welcome_doc : Env → Bytes → Members
welcome_doc env git_sha = field (codes "couchdb") (text (codes "Welcome")) (
    field (codes "version") (text env.version) (
      field (codes "git_sha") (text git_sha) (
        field (codes "features")
          (list (
            cons (text (codes "access-ready")) (
              cons (text (codes "partitioned")) (
                cons (text (codes "pluggable-storage-engines"))
                  (cons (text (codes "reshard")) nil)))))
          (field (codes "vendor")
            (object (field (codes "name") (text (codes "The Apache Software Foundation")) end))
            end))))

unfoldable pub login_doc : Bytes → Members
login_doc username = field (codes "ok") (boolean true) (
    field (codes "name") (text username)
      (field (codes "roles") (list (cons (text (codes "_admin")) nil)) end))

unfoldable pub session_doc : Members
session_doc = field (codes "ok") (boolean true) (
    field (codes "info") (object (field (codes "authentication_db") (text (codes "_users")) end)) (
      field (codes "userCtx")
        (object (field (codes "name") null (field (codes "roles") (list nil) end))) end))

unfoldable pub db_doc : Bytes → Members
db_doc db = field (codes "db_name") (text db) (
    field (codes "doc_count") (number 0) (
      field (codes "doc_del_count") (number 0) (
        field (codes "update_seq") (number 0) (
          field (codes "purge_seq") (number 0) (
            field (codes "compact_running") (boolean false) (
              field (codes "disk_size") (number 0) (
                field (codes "data_size") (number 0) (
                  field (codes "instance_start_time") (text (codes "0")) (
                    field (codes "disk_format_version") (number 6)
                      (field (codes "committed_update_seq") (number 0) end))))))))))

unfoldable pub created_doc : Members
created_doc = field (codes "ok") (boolean true) end

unfoldable pub not_allowed_doc : Members
not_allowed_doc =
    field (codes "error") (text (codes "method_not_allowed"))
      (field (codes "reason") (text (codes "Only GET, PUT supported")) end)

abbrev pair_or_empty : Option (Bytes × Bytes) → Bytes × Bytes
pair_or_empty none = ([], [])
pair_or_empty (some p) = p

-- The JSON body is tried first, and then the header.
unfoldable pub credentials_of : Option (Bytes × Bytes) → Bytes → Bytes × Bytes
credentials_of (some creds) header = creds
credentials_of none header = pair_or_empty (basic_auth header)

abbrev pub login_event : Request → Bytes → Bytes → Event
login_event r username password = record no_event {
  protocol = proto;
  src_ip = r.peer.ip;
  src_port = r.peer.port;
  username = username;
  password = password;
  command = codes "SESSION";
}

unfoldable pub log_login : Env → Request → Bytes × Bytes → Result (List Event)
log_login env r (username, password) =
    if same username [] && same password []
    then ok []
    else log_to env.store (login_event r username password)

unfoldable pub login : Env → Request → Handled
login env r = do
  let creds =
      credentials_of (env.unmarshal (read_limited_body env.max_body_bytes r).0) r.authorization
  events ← log_login env r creds
  ok (write_json_with_content_type status_ok (login_doc creds.0), events)

-- `couchSessionHandler`
unfoldable pub session : Env → Request → Handled
session env r =
    if same r.method (codes "POST")
    then login env r
    else answer (write_json_with_content_type status_ok session_doc)

-- `couchFutonHandler`
unfoldable pub fauxton : Response
fauxton = record {
  status = status_ok;
  headers = (codes "Content-Type", codes "text/html; charset=UTF-8") ∷ [];
  body = codes "<html><body><h1>CouchDB Fauxton</h1></body></html>";
}

abbrev trim_slash : Bytes → Bytes
trim_slash [] = []
trim_slash (c ∷ s) = if c == b'/' then s else c ∷ s

abbrev first : List Bytes → Bytes
first [] = []
first (part ∷ parts) = part

-- The database that a path names: its first segment.
unfoldable pub db_of : Bytes → Bytes
unfolding split_slash
db_of path = first (split_slash [] (trim_slash path))

unfoldable pub db_response : Bytes → Bytes → Response
unfolding write_json_with_content_type db_doc created_doc not_allowed_doc
db_response method db =
    if same method (codes "GET")
    then write_json_with_content_type status_ok (db_doc db)
    else if same method (codes "PUT")
    then write_json_with_content_type status_created created_doc
    else write_json_with_content_type status_method_not_allowed not_allowed_doc

-- `couchDBHandler`
unfoldable pub db_handler : Env → Request → Handled
db_handler env r =
    let w = db_response r.method (sanitize_path (db_of r.path)) in
    if env.store
    then (do done ← log_http_event env.store proto env.max_body_bytes r; ok (w, done.0))
    else answer w

unfoldable pub welcome : Env → Handled
welcome env = do
  git_sha ← slice env.fp.es_build_hash 0 8
  answer (write_json_with_content_type status_ok (welcome_doc env git_sha))

-- The handlers that the mux is given.
pub data Handler : Type 0 where
  sessions utils root : Handler

unfoldable pub run : Env → Handler → Request → Handled
run env sessions r = session env r
run env utils r = answer fauxton
run env root r = if same r.path (codes "/") then welcome env else db_handler env r

abbrev pub routes : List (Bytes × Handler)
routes = (codes "/_session", sessions) ∷ (codes "/_utils/", utils) ∷ (codes "/", root) ∷ []

unfoldable pub serve : Env → Request → Served
unfolding serve_routed route run
serve env r = serve_routed (run env) (route routes r.method r.path) r
