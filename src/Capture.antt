-- ===== src/Capture.antt =====
-- The capture package: internal/capture/store.go. An event is stripped of control characters,
-- written as one line of JSON, and handed to the webhook.
pub mod Sanitize
pub mod Line
pub mod Readable
pub mod Growth
pub mod Webhook
mod Tests
use white_toyota_tacoma.Common.{
  ℕ, suc, ◌+◌, ◌/◌, ◌%◌, Bool, true, false, ◌&&◌, ◌||◌, Option, none, some, List, [], ◌∷◌, ◌++◌,
  ltb, leb, ◌==◌, if◌then◌else◌, length, take,
}
use white_toyota_tacoma.Common.Bytes.{Bytes, codes}
use white_toyota_tacoma.Common.Decimal.{itoa}
use white_toyota_tacoma.Common.Quote.{json_string}
use white_toyota_tacoma.Common.Utf8.{string_map}

pub record Event : Type 0 where
  pub timestamp : Bytes
  pub protocol : Bytes
  pub src_ip : Bytes
  pub src_port : ℕ
  pub username : Bytes
  pub password : Bytes
  pub database : Bytes
  pub auth_hash : Bytes
  pub command : Bytes
  pub payload : Bytes

abbrev pub no_event : Event
no_event = record {
  timestamp = [];
  protocol = [];
  src_ip = [];
  src_port = 0;
  username = [];
  password = [];
  database = [];
  auth_hash = [];
  command = [];
  payload = [];
}

abbrev pub max_field : ℕ
max_field = 4096

-- `unicode.IsControl`
abbrev pub is_control : ℕ → Bool
is_control r = ltb r 0x20 || (leb 0x7f r && ltb r 0xa0)

abbrev pub drop_control : ℕ → Option ℕ
drop_control r = if is_control r then none else some r

unfoldable pub sanitize_str : Bytes → Bytes
unfolding string_map
sanitize_str s = string_map drop_control (if ltb max_field (length s) then take max_field s else s)

unfoldable pub sanitize : Event → Event
unfolding sanitize_str
sanitize e = record e {
  src_ip = sanitize_str e.src_ip;
  username = sanitize_str e.username;
  password = sanitize_str e.password;
  database = sanitize_str e.database;
  auth_hash = sanitize_str e.auth_hash;
  command = sanitize_str e.command;
  payload = sanitize_str e.payload;
}

-- A field with `omitempty`.
omit_empty : Bytes → Bytes → Bytes
unfolding json_string
omit_empty key [] = []
omit_empty key (b ∷ s) = b',' ∷ (key ++ json_string (b ∷ s))

concat : List Bytes → Bytes
concat [] = []
concat (s ∷ rest) = s ++ concat rest

-- The fields in the order of the struct, those without `omitempty` also where they are empty.
pieces : Event → List Bytes
unfolding omit_empty json_string itoa
pieces e =
    codes "{\"ts\":"
    ∷ json_string e.timestamp
    ∷ codes ",\"proto\":"
    ∷ json_string e.protocol
    ∷ codes ",\"src_ip\":"
    ∷ json_string e.src_ip
    ∷ codes ",\"src_port\":"
    ∷ itoa e.src_port
    ∷ omit_empty (codes "\"username\":") e.username
    ∷ omit_empty (codes "\"password\":") e.password
    ∷ omit_empty (codes "\"database\":") e.database
    ∷ omit_empty (codes "\"auth_hash\":") e.auth_hash
    ∷ omit_empty (codes "\"command\":") e.command
    ∷ omit_empty (codes "\"payload\":") e.payload
    ∷ codes "}"
    ∷ []

unfoldable pub marshal : Event → Bytes
unfolding pieces concat
marshal e = concat (pieces e)

-- The log file, and the bodies handed to the webhook, if one is set.
pub record Store : Type 0 where
  pub file : Bytes
  pub webhook : Bool
  pub sent : List Bytes

-- `Log`. `written` is how many bytes the file takes before it fails, if it fails.
unfoldable pub log : Bytes → Option ℕ → Store → Event → Store
unfolding sanitize marshal
log now written s e =
    let b = marshal (sanitize (record e { timestamp = now })) ++ 10 ∷ [] in
    record s {
      file = s.file ++ elim written [ none ↦ b | some n ↦ take n b ];
      sent = if s.webhook then s.sent ++ b ∷ [] else s.sent;
    }
