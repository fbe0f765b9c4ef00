-- ===== src/Mysql/Session/Spec.antt =====
-- What the handler is for, on what a client may send: the database in use, the events and the
-- replies.
use white_toyota_tacoma.Common.{ℕ, suc, ◌≤◌, ◌≢◌, List, [], ◌∷◌, ◌++◌, length, take}
use white_toyota_tacoma.Common.Bytes.{Bytes, codes}
use white_toyota_tacoma.Common.Hex.{hex}
use white_toyota_tacoma.Capture.{Event}
use white_toyota_tacoma.Mysql.Packet.{max_packet_size, packet}
use white_toyota_tacoma.Mysql.Handshake.{Login}
use white_toyota_tacoma.Mysql.Session.{Env}

-- What a client may ask for, other than to leave.
pub data Request : Type 0 where
  query : Bytes → Request
  init_db : Bytes → Request
  other : ℕ → Bytes → Request

abbrev pub body : Request → Bytes
body (query q) = 0x03 ∷ q
body (init_db db) = 0x02 ∷ db
body (other b arg) = b ∷ arg

abbrev pub IsRequest : Request → Type 0
IsRequest (query q) = length (body (query q)) ≤ max_packet_size
IsRequest (init_db db) = length (body (init_db db)) ≤ max_packet_size
IsRequest (other b arg) =
    (length (body (other b arg)) ≤ max_packet_size) × (b ≢ 1) × (b ≢ 2) × (b ≢ 3)

abbrev pub wire : List Request → Bytes
wire [] = []
wire (r ∷ rs) = packet 0 (body r) ++ wire rs

-- The specification: the database in use, the events, and the replies.
abbrev pub next_login : Login → Request → Login
next_login l (query q) = l
next_login l (init_db db) = record l { database = db }
next_login l (other b arg) = l

-- An event of the client under a login, in which only these two fields differ.
abbrev pub logged_as : Env → Login → Bytes → Bytes → Event
logged_as env l hash command = record {
  timestamp = [];
  protocol = codes "mysql";
  src_ip = env.peer.ip;
  src_port = env.peer.port;
  username = l.username;
  password = [];
  database = l.database;
  auth_hash = hash;
  command = command;
  payload = [];
}

-- What the log holds of the login itself.
abbrev pub login_event : Env → Login → Event
login_event env l = logged_as env l (hex l.auth_resp) (codes "CONNECT")

abbrev pub logged : Env → Login → Request → List Event
logged env l (query q) = logged_as env l [] (take 2048 q) ∷ []
logged env l (init_db db) = []
logged env l (other b arg) = []

abbrev pub all_logged : Env → Login → List Request → List Event
all_logged env l [] = []
all_logged env l (r ∷ rs) = logged env l r ++ all_logged env (next_login l r) rs

-- OK, with autocommit on.
abbrev pub accepted : Bytes
accepted = 0 ∷ 0 ∷ 0 ∷ 2 ∷ 0 ∷ 0 ∷ 0 ∷ []

abbrev pub reply : Request → Bytes
reply (query q) = packet 1 (0 ∷ []) ++ packet 2 (0xfe ∷ 0 ∷ 0 ∷ 2 ∷ 0 ∷ [])
reply (init_db db) = packet 1 accepted
reply (other b arg) = packet 1 accepted

abbrev pub replies : List Request → Bytes
replies [] = []
replies (r ∷ rs) = reply r ++ replies rs

-- The writes that the replies take, before `n` more.
abbrev pub writes_for : Request → ℕ → ℕ
writes_for (query q) n = suc (suc (suc (suc n)))
writes_for (init_db db) n = suc (suc n)
writes_for (other b arg) n = suc (suc n)

abbrev pub writes : List Request → ℕ → ℕ
writes [] n = n
writes (r ∷ rs) n = writes_for r (writes rs n)
