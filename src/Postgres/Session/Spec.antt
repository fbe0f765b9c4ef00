-- ===== src/Postgres/Session/Spec.antt =====
-- What the handler is for, on what a client may send: the events and the replies.
use white_toyota_tacoma.Common.{
  ℕ, suc, ◌≤◌, ◌≡◌, ◌≢◌, true, false, List, [], ◌∷◌, ◌++◌, length, take, replicate,
}
use white_toyota_tacoma.Common.Bytes.{Bytes, codes, be32}
use white_toyota_tacoma.Capture.{Event}
use white_toyota_tacoma.Postgres.Message.{max_msg_len, message}
use white_toyota_tacoma.Postgres.Message.RoundTrip.{before_nul}
use white_toyota_tacoma.Postgres.Startup.{Account}
use white_toyota_tacoma.Postgres.Session.{Env, type_query, type_terminate, is_extended}

-- What a client may send, other than to leave.
pub data Request : Type 0 where
  query : Bytes → Request
  -- A message of the extended protocol.
  extended : ℕ → Bytes → Request
  unknown : ℕ → Bytes → Request

abbrev pub type_of : Request → ℕ
type_of (query q) = type_query
type_of (extended t b) = t
type_of (unknown t b) = t

abbrev pub body : Request → Bytes
body (query q) = q
body (extended t b) = b
body (unknown t b) = b

abbrev pub IsRequest : Request → Type 0
IsRequest (query q) = length q ≤ max_msg_len
IsRequest (extended t b) = (length b ≤ max_msg_len) × (is_extended t ≡ true)
IsRequest (unknown t b) =
    (length b ≤ max_msg_len) × (is_extended t ≡ false) × (t ≢ type_query) × (t ≢ type_terminate)

abbrev pub wire : List Request → Bytes
wire [] = []
wire (r ∷ rs) = message (type_of r) (body r) ++ wire rs

-- An event of the client under its account, in which only these two fields differ.
abbrev pub logged_as : Env → Account → Bytes → Bytes → Event
logged_as env a hash command = record {
  timestamp = [];
  protocol = codes "postgres";
  src_ip = env.peer.ip;
  src_port = env.peer.port;
  username = a.username;
  password = [];
  database = a.database;
  auth_hash = hash;
  command = command;
  payload = [];
}

-- What the log holds of the login, with the client's answer to the challenge.
abbrev pub login_event : Env → Account → Bytes → Event
login_event env a hash = logged_as env a hash (codes "CONNECT")

-- The specification: the events, and the replies.
abbrev pub logged : Env → Account → Request → List Event
logged env a (query q) = logged_as env a [] (take 2048 (before_nul q)) ∷ []
logged env a (extended t b) = []
logged env a (unknown t b) = []

abbrev pub all_logged : Env → Account → List Request → List Event
all_logged env a [] = []
all_logged env a (r ∷ rs) = logged env a r ++ all_logged env a rs

abbrev pub reply : Request → Bytes
reply (query q) = message 73 [] ++ message 90 (b'I' ∷ [])
reply (extended t b) =
    message 69 (
      codes "SERROR"
      ++ 0 ∷ (codes "CXX000" ++ 0 ∷ (codes "Mextended query protocol not supported" ++ 0 ∷ 0 ∷ [])))
    ++ message 90 (b'I' ∷ [])
reply (unknown t b) = []

abbrev pub replies : List Request → Bytes
replies [] = []
replies (r ∷ rs) = reply r ++ replies rs

-- The writes that the replies take, before `n` more.
abbrev pub writes_for : Request → ℕ → ℕ
writes_for (query q) n = suc (suc n)
writes_for (extended t b) n = suc (suc n)
writes_for (unknown t b) n = n

abbrev pub writes : List Request → ℕ → ℕ
writes [] n = n
writes (r ∷ rs) n = writes_for r (writes rs n)

abbrev pub statuses : List (Bytes × Bytes) → Bytes
statuses [] = []
statuses ((k, v) ∷ ps) = message 83 (k ++ 0 ∷ (v ++ 0 ∷ [])) ++ statuses ps

abbrev pub welcomed : Env → Bytes
welcomed env =
    (82 ∷ 0 ∷ 0 ∷ 0 ∷ 8 ∷ 0 ∷ 0 ∷ 0 ∷ 0 ∷ [])
    ++ (statuses env.visited
        ++ (message 75 (be32 env.backend_pid ++ be32 env.cancel_key) ++ message 90 (b'I' ∷ [])))

abbrev pub challenge : Bytes → Bytes
challenge salt = 82 ∷ (be32 12 ++ (be32 5 ++ take 4 salt))

-- What the handler writes up to its loop, behind `ssl` SSL requests.
abbrev pub greeting : ℕ → Env → Bytes
greeting ssl env = (replicate ssl 78 ++ challenge env.salt) ++ welcomed env
