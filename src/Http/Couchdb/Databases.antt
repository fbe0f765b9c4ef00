-- ===== src/Http/Couchdb/Databases.antt =====
-- How the CouchDB service answers a request for a database, and that it always answers.
use white_toyota_tacoma.Common.{
  ℕ, ◌≤◌, ◌≡◌, refl, inl, inr, true, List, [], ◌∷◌, if◌then◌else◌, length, arith, Bool-cases,
}
use white_toyota_tacoma.Common.Bytes.{Bytes, codes, same}
use white_toyota_tacoma.Common.Bytes.Safe.{slice-eq-ok}
use white_toyota_tacoma.Common.Result.{ok}
use white_toyota_tacoma.Capture.{Event}
use white_toyota_tacoma.Http.Path.{sanitize_path}
use white_toyota_tacoma.Http.Message.{Request, Response, Handled, read_limited_body}
use white_toyota_tacoma.Http.Message.Logged.{captured, log_http_event-eq-ok}
use white_toyota_tacoma.Http.Couchdb.Login.{log_login-eq-ok}
use white_toyota_tacoma.Http.Couchdb.{
  Env, Handler, sessions, utils, root, proto, credentials_of, login, session, db_of, db_response,
  db_handler, welcome, run,
}

-- GET and PUT are answered as CouchDB does, and every other method is refused.
abbrev pub status_for : Bytes → ℕ
status_for method =
    if same method (codes "GET") then 200 else if same method (codes "PUT") then 201 else 405

db_handler-eq-ok :
    (env : Env) (r : Request)
    → env.store ≡ true
    → db_handler env r
      ≡ ok (
        db_response r.method (sanitize_path (db_of r.path)),
        captured proto env.max_body_bytes r ∷ [],
      )
unfolding db_handler
db_handler-eq-ok env r s = rw s (rw (log_http_event-eq-ok proto env.max_body_bytes r))

-- Each handler answers.
abbrev Answers : Handled → Type 0
Answers h = (a : Response × List Event) × (h ≡ ok a)

login-Answers : (env : Env) (r : Request) → env.store ≡ true → Answers (login env r)
unfolding login
login-Answers env r s =
    let creds =
      credentials_of (env.unmarshal (read_limited_body env.max_body_bytes r).0) r.authorization in
    rw (log_login-eq-ok env r creds s) (_, refl)

pub run-Answers :
    (env : Env) (h : Handler) (r : Request)
    → env.store ≡ true
    → 8 ≤ length env.fp.es_build_hash
    → Answers (run env h r)
unfolding run session welcome
run-Answers env sessions r s n = elim (Bool-cases (same r.method (codes "POST"))) [
  | inl e ↦ rw e (login-Answers env r s)
  | inr e ↦ rw e (_, refl)
]
run-Answers env utils r s n = (_, refl)
run-Answers env root r s n = elim (Bool-cases (same r.path (codes "/"))) [
  | inl e ↦ rw (e, slice-eq-ok env.fp.es_build_hash 0 8 (omega arith) n) (_, refl)
  | inr e ↦ rw e (_, db_handler-eq-ok env r s)
]
