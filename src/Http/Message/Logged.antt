-- ===== src/Http/Message/Logged.antt =====
-- The event that a request leaves in the log.
use white_toyota_tacoma.Common.{
  ℕ, zero, suc, ◌≤◌, arith, length, take, length-take, ◌≡◌, refl, ap, Option, none, some, [], ◌∷◌,
  ◌++◌, true,
}
use white_toyota_tacoma.Common.Int.{ℤ, pos, negsuc, pos_part}
use white_toyota_tacoma.Common.Bytes.{Bytes}
use white_toyota_tacoma.Common.Result.{ok}
use white_toyota_tacoma.Capture.{Event, no_event}
use white_toyota_tacoma.Http.Path.{sanitize_path}
use white_toyota_tacoma.Http.Message.{
  Request, limited, read_body, read_limited_body, log_to, http_event, log_http_event,
}

-- The body of a request up to the limit, empty where there is none.
abbrev pub body_within : ℤ → Option Bytes → Bytes
body_within max_bytes none = []
body_within max_bytes (some s) = limited max_bytes s

-- What a request should leave: its method and path, in plain characters, and its body.
abbrev pub captured : Bytes → ℤ → Request → Event
captured proto max_bytes r = record no_event {
  protocol = proto;
  src_ip = r.peer.ip;
  src_port = r.peer.port;
  command = sanitize_path (r.method ++ 32 ∷ r.path);
  payload = body_within max_bytes r.body;
}

read_body_within :
    (max_bytes : ℤ) (body : Option Bytes)
    → (read_body max_bytes body).0 ≡ body_within max_bytes body
unfolding read_body
read_body_within max_bytes none = refl
read_body_within max_bytes (some s) = refl

pub read_limited_body_lem :
    (max_bytes : ℤ) (r : Request) → (read_limited_body max_bytes r).0 ≡ body_within max_bytes r.body
unfolding read_limited_body
read_limited_body_lem max_bytes r = read_body_within max_bytes r.body

pub log_http_event-eq-ok :
    (proto : Bytes) (max_bytes : ℤ) (r : Request)
    → log_http_event true proto max_bytes r
      ≡ ok (captured proto max_bytes r ∷ [], (read_limited_body max_bytes r).1)
unfolding log_http_event log_to http_event
log_http_event-eq-ok proto max_bytes r = rw (read_limited_body_lem max_bytes r)

take-take : (n : ℕ) (s : Bytes) → take n (take n s) ≡ take n s
take-take zero s = refl
take-take (suc n) [] = refl
take-take (suc n) (b ∷ s) = ap (◌∷◌ b) (take-take n s)

limited-limited :
    (max_bytes : ℤ) (s : Bytes) → limited max_bytes (limited max_bytes s) ≡ limited max_bytes s
limited-limited (pos n) s = take-take n s
limited-limited (negsuc n) s = refl

length-limited : (max_bytes : ℤ) (s : Bytes) → length (limited max_bytes s) ≤ pos_part max_bytes
length-limited (pos n) s = omega (arith, length-take n s)
length-limited (negsuc n) s = omega arith

length-body_within :
    (max_bytes : ℤ) (body : Option Bytes) → length (body_within max_bytes body) ≤ pos_part max_bytes
length-body_within max_bytes none = omega arith
length-body_within max_bytes (some s) = length-limited max_bytes s

again :
    (max_bytes : ℤ) (body : Option Bytes)
    → (read_body max_bytes (read_body max_bytes body).1).0 ≡ (read_body max_bytes body).0
unfolding read_body
again max_bytes none = refl
again max_bytes (some s) = limited-limited max_bytes s

-- Whatever the body of a request, no more bytes of it are read than the limit, and none where the
-- limit is below 0; and a handler that reads the body again finds the same bytes.
pub read_limited_body_bounds :
    (max_bytes : ℤ) (r : Request)
    → (length (read_limited_body max_bytes r).0 ≤ pos_part max_bytes)
      × ((read_limited_body max_bytes (read_limited_body max_bytes r).1).0
          ≡ (read_limited_body max_bytes r).0)
unfolding read_limited_body
read_limited_body_bounds max_bytes r = (
  rw (read_body_within max_bytes r.body) (length-body_within max_bytes r.body),
  again max_bytes r.body,
)
