-- ===== src/Http/Couchdb/Login.antt =====
-- The credentials that a client sends to `/_session` of the CouchDB service.
use white_toyota_tacoma.Common.{
  ap, append_assoc, ◌≡◌, refl, ◌∙◌, true, false, ◌&&◌, Option, none, some, List, [], ◌∷◌, ◌++◌,
  if◌then◌else◌, All, Bool-cases, inl, inr,
}
use white_toyota_tacoma.Common.Bytes.{Bytes, IsByte, Lacks, codes, same}
use white_toyota_tacoma.Common.Result.{ok}
use white_toyota_tacoma.Common.Json.{json, json_object, sorted}
use white_toyota_tacoma.Common.Quote.{json_string}
use white_toyota_tacoma.Capture.{Event}
use white_toyota_tacoma.Conn.{Peer}
use white_toyota_tacoma.Http.BasicAuth.RoundTrip.{base64, basic_auth-base64}
use white_toyota_tacoma.Http.Message.{Request, Response, log_to, write_json_with_content_type}
use white_toyota_tacoma.Http.Message.Logged.{body_within, read_limited_body_lem}
use white_toyota_tacoma.Http.Mux.{route, handle}
use white_toyota_tacoma.Http.Serve.{handled, serve_routed}
use white_toyota_tacoma.Http.Couchdb.{
  Env, credentials_of, login_event, log_login, login, login_doc, session_doc, session, run, serve,
  routes, sessions,
}

-- A request to `/_session`, and a POST to it.
abbrev pub to_session : Bytes → Peer → Bytes → Option Bytes → Request
to_session method peer authorization body = record {
  method = method;
  path = codes "/_session";
  peer = peer;
  authorization = authorization;
  body = body;
}

abbrev pub post : Peer → Bytes → Option Bytes → Request
post = to_session (codes "POST")

abbrev couch_headers : List (Bytes × Bytes)
couch_headers =
    (codes "Content-Type", codes "application/json; charset=utf-8")
    ∷ (codes "Cache-Control", codes "must-revalidate")
    ∷ []

-- What a client that is logged in is told, and one that only asks.
abbrev pub welcomed : Bytes → Response
welcomed username = record {
  status = 200;
  headers = couch_headers;
  body =
      codes "{\"name\":"
      ++ (json_string username ++ codes ",\"ok\":true,\"roles\":[\"_admin\"]}\n");
}

abbrev pub anonymous : Response
anonymous = record {
  status = 200;
  headers = couch_headers;
  body =
      codes
        "{\"info\":{\"authentication_db\":\"_users\"},\"ok\":true,\"userCtx\":{\"name\":null,\"roles\":[]}}\n";
}

-- The credentials that should be captured.
abbrev pub attempt : Peer → Bytes → Bytes → Event
attempt peer username password = record {
  timestamp = [];
  protocol = codes "couchdb";
  src_ip = peer.ip;
  src_port = peer.port;
  username = username;
  password = password;
  database = [];
  auth_hash = [];
  command = codes "SESSION";
  payload = [];
}

-- The event of a login, unless both parts are empty.
abbrev pub attempted : Peer → Bytes × Bytes → List Event
attempted peer creds =
    if same creds.0 [] && same creds.1 [] then [] else attempt peer creds.0 creds.1 ∷ []

told : Bytes → Response
told rest = record { status = 200; headers = couch_headers; body = codes "{\"name\":" ++ rest }

regrouped :
    (name : Bytes)
    → ((name ++ codes ",\"ok\":true,\"roles\":[\"_admin\"]") ++ codes "}") ++ codes "\n"
      ≡ name ++ codes ",\"ok\":true,\"roles\":[\"_admin\"]}\n"
regrouped name = simp append_assoc

login_doc-welcomed :
    (username : Bytes) → write_json_with_content_type 200 (login_doc username) ≡ welcomed username
unfolding write_json_with_content_type login_doc json json_object sorted told
login_doc-welcomed username = ap told (regrouped (json_string username))

session_doc-anonymous : write_json_with_content_type 200 session_doc ≡ anonymous
unfolding write_json_with_content_type session_doc json json_object sorted json_string
session_doc-anonymous = refl

pub log_login-eq-ok :
    (env : Env) (r : Request) (creds : Bytes × Bytes)
    → env.store ≡ true
    → log_login env r creds
      ≡ ok (if same creds.0 [] && same creds.1 [] then [] else login_event r creds.0 creds.1 ∷ [])
unfolding log_login log_to
log_login-eq-ok env r creds s = elim (Bool-cases (same creds.0 [] && same creds.1 [])) [
  | inl e ↦ rw e refl
  | inr e ↦ rw (e, s) refl
]

-- The credentials of a request.
abbrev captured_of : Env → Bytes → Option Bytes → Bytes × Bytes
captured_of env authorization body =
    credentials_of (env.unmarshal (body_within env.max_body_bytes body)) authorization

login-eq-ok :
    (env : Env) (method : Bytes) (peer : Peer) (authorization : Bytes) (body : Option Bytes)
    → env.store ≡ true
    → login env (to_session method peer authorization body)
      ≡ ok (
        welcomed (captured_of env authorization body).0,
        attempted peer (captured_of env authorization body),
      )
unfolding login
login-eq-ok env method peer authorization body s =
    let creds = captured_of env authorization body in
    rw (read_limited_body_lem env.max_body_bytes (to_session method peer authorization body)) (
      rw (
        log_login-eq-ok env (to_session method peer authorization body) creds s,
        login_doc-welcomed creds.0,
      ))

-- Every method reaches the handler.
route_session : (method : Bytes) → route routes method (codes "/_session") ≡ handle sessions
unfolding route same
route_session method = elim (Bool-cases (same method (codes "CONNECT"))) [
  | inl e ↦ rw e refl
  | inr e ↦ rw e refl
]

serve_session :
    (env : Env) (method : Bytes) (peer : Peer) (authorization : Bytes) (body : Option Bytes)
    → env.store ≡ true
    → serve env (to_session method peer authorization body)
      ≡ handled (
          ok (
            if same method (codes "POST")
            then (
              welcomed (captured_of env authorization body).0,
              attempted peer (captured_of env authorization body),
            )
            else (anonymous, [])))
unfolding serve serve_routed run session
serve_session env method peer authorization body s =
    rw (route_session method) (elim (Bool-cases (same method (codes "POST"))) [
      | inl e ↦ rw e (ap handled (login-eq-ok env method peer authorization body s))
      | inr e ↦ rw e (ap (λ w. handled (ok (w, []))) session_doc-anonymous)
    ])

serve-post :
    (env : Env) (peer : Peer) (authorization : Bytes) (body : Option Bytes)
    → env.store ≡ true
    → serve env (post peer authorization body)
      ≡ handled (
          ok (
            welcomed (captured_of env authorization body).0,
            attempted peer (captured_of env authorization body),
          ))
unfolding same
serve-post env peer authorization body s =
    serve_session env (codes "POST") peer authorization body s

-- A client that posts a name and a password to `/_session` as JSON is told that it is logged in
-- under that name, and the two are captured, with its address, whatever its header says; where both
-- are empty nothing is. By any other method it is told that nobody is logged in, and nothing is
-- captured.
pub couch_login_json :
    (env : Env) (method : Bytes) (peer : Peer) (authorization : Bytes) (body : Option Bytes)
    (name password : Bytes)
    → env.store ≡ true
    → env.unmarshal (body_within env.max_body_bytes body) ≡ some (name, password)
    → serve env (to_session method peer authorization body)
      ≡ handled (
          ok (
            if same method (codes "POST")
            then (welcomed name, attempted peer (name, password))
            else (anonymous, [])))
unfolding credentials_of
couch_login_json env method peer authorization body name password s u =
    serve_session env method peer authorization body s ∙ rw u refl

-- A client that posts to `/_session` a user and a password by Basic authentication is told that it is
-- logged in as that user, and the two are captured, with its address, if its body is not JSON of a
-- name and a password. The user has no colon, and they are not both empty.
pub couch_login_basic :
    (env : Env) (peer : Peer) (body : Option Bytes) (user password : Bytes)
    → env.store ≡ true
    → env.unmarshal (body_within env.max_body_bytes body) ≡ none
    → All IsByte (user ++ b':' ∷ password)
    → Lacks b':' user
    → (same user [] && same password []) ≡ false
    → serve env (post peer (codes "Basic " ++ base64 (user ++ b':' ∷ password)) body)
      ≡ handled (ok (welcomed user, attempt peer user password ∷ []))
unfolding credentials_of
couch_login_basic env peer body user password s u b l e =
    serve-post env peer (codes "Basic " ++ base64 (user ++ b':' ∷ password)) body s
    ∙ rw u (rw (basic_auth-base64 user password b l) (rw e))

-- Where the body is JSON without a name and a password, such as `{}`, the header is not looked at:
-- the client is told that it is logged in, and nothing is captured, whatever credentials it sends.
pub couch_login_lost :
    (env : Env) (peer : Peer) (body : Option Bytes) (user password : Bytes)
    → env.store ≡ true
    → env.unmarshal (body_within env.max_body_bytes body) ≡ some ([], [])
    → serve env (post peer (codes "Basic " ++ base64 (user ++ b':' ∷ password)) body)
      ≡ handled (ok (welcomed [], []))
unfolding credentials_of same
couch_login_lost env peer body user password s u =
    serve-post env peer (codes "Basic " ++ base64 (user ++ b':' ∷ password)) body s ∙ rw u refl
