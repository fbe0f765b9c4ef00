-- ===== src/Http/Message.antt =====
-- Requests, responses and the helpers of internal/proto/http/handler.go. What `net/http` does
-- with a response beyond its status, its headers and its body is left out.
pub mod Logged
use white_toyota_tacoma.Common.{ℕ, Bool, true, false, Option, none, some, List, [], ◌∷◌, ◌++◌, take}
use white_toyota_tacoma.Common.Int.{ℤ, pos, negsuc}
use white_toyota_tacoma.Common.Bytes.{Bytes, codes}
use white_toyota_tacoma.Common.Json.{Json, object, Members, json}
use white_toyota_tacoma.Common.Result.{Result, ok, err, panic, ◌>>=◌}
use white_toyota_tacoma.Capture.{Event, no_event}
use white_toyota_tacoma.Conn.{Peer}
use white_toyota_tacoma.Http.Path.{sanitize_path}

-- `body` is what the stream of the body gives before it ends or fails, or `none` for a nil body;
-- `authorization` is that header, empty where there is none.
pub record Request : Type 0 where
  pub method : Bytes
  pub path : Bytes
  pub peer : Peer
  pub authorization : Bytes
  pub body : Option Bytes

pub record Response : Type 0 where
  pub status : ℕ
  pub headers : List (Bytes × Bytes)
  pub body : Bytes

-- The response, and the events given to the store; or a panic, which `net/http` recovers from by
-- closing the connection.
abbrev pub Handled : Type 0
Handled = Result (Response × List Event)

-- A response with no event.
abbrev pub answer : Response → Handled
answer w = ok (w, [])

-- `io.LimitReader`, whose limit may be below 0.
abbrev pub limited : ℤ → Bytes → Bytes
limited (pos n) s = take n s
limited (negsuc n) s = []

-- The bytes read, and the body that a later reader finds.
read_body : ℤ → Option Bytes → Bytes × Option Bytes
read_body max_bytes none = ([], none)
read_body max_bytes (some s) = (limited max_bytes s, some (limited max_bytes s))

unfoldable pub read_limited_body : ℤ → Request → Bytes × Request
unfolding read_body
read_limited_body max_bytes r =
    let (data_read, left) = read_body max_bytes r.body in (data_read, record r { body = left })

-- `store.Log`, on a store that may be nil.
unfoldable pub log_to : Bool → Event → Result (List Event)
log_to false e = err panic
log_to true e = ok (e ∷ [])

unfoldable pub http_event : Bytes → ℤ → Request → Event
unfolding read_limited_body
http_event proto max_bytes r = record no_event {
  protocol = proto;
  src_ip = r.peer.ip;
  src_port = r.peer.port;
  command = sanitize_path (r.method ++ 32 ∷ r.path);
  payload = (read_limited_body max_bytes r).0;
}

-- `logHTTPEvent`, and the request that it leaves.
unfoldable pub log_http_event : Bool → Bytes → ℤ → Request → Result (List Event × Request)
unfolding http_event log_to
log_http_event store proto max_bytes r = do
  events ← log_to store (http_event proto max_bytes r)
  ok (events, (read_limited_body max_bytes r).1)

-- The body of `json.NewEncoder(w).Encode(v)`.
abbrev encoded : Json → Bytes
encoded v = json v ++ 10 ∷ []

-- `writeJSON`
unfoldable pub write_json : ℕ → Members → Response
write_json status fields = record {
  status = status;
  headers =
      (codes "Content-Type", codes "application/json; charset=UTF-8")
      ∷ (codes "X-Elastic-Product", codes "Elasticsearch")
      ∷ [];
  body = encoded (object fields);
}

-- `writeJSONWithContentType`
unfoldable pub write_json_with_content_type : ℕ → Members → Response
write_json_with_content_type status fields = record {
  status = status;
  headers =
      (codes "Content-Type", codes "application/json; charset=utf-8")
      ∷ (codes "Cache-Control", codes "must-revalidate")
      ∷ [];
  body = encoded (object fields);
}

-- `http.StatusOK` and the others.
abbrev pub status_ok : ℕ
status_ok = 200

abbrev pub status_created : ℕ
status_created = 201

abbrev pub status_not_found : ℕ
status_not_found = 404

abbrev pub status_method_not_allowed : ℕ
status_method_not_allowed = 405
