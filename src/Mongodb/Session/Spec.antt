-- ===== src/Mongodb/Session/Spec.antt =====
-- What a client may send, and the events and replies that the builders of the handler make of it.
use white_toyota_tacoma.Common.{
  ℕ, suc, ◌+◌, ◌≤◌, ◌<◌, ◌≡◌, Option, true, none, some, List, [], ◌∷◌, ◌++◌, if◌then◌else◌, length,
  All,
}
use white_toyota_tacoma.Common.Bytes.{Bytes, Lacks, codes}
use white_toyota_tacoma.Common.Utf8.{to_lower}
use white_toyota_tacoma.Capture.{Event}
use white_toyota_tacoma.Mongodb.Bson.{max_bson_doc, string_of}
use white_toyota_tacoma.Mongodb.Bson.Fields.{Field, IsField, wire_fields, wire_doc, put_all}
use white_toyota_tacoma.Mongodb.Bson.Lookup.{last_kept}
use white_toyota_tacoma.Mongodb.Message.{max_msg_size, signed32}
use white_toyota_tacoma.Mongodb.Message.RoundTrip.{wire_header}
use white_toyota_tacoma.Mongodb.Reply.{op_msg_message, op_reply_message}
use white_toyota_tacoma.Mongodb.Sections.Captured.{with_flags}
use white_toyota_tacoma.Mongodb.Session.{
  Env, query_event, msg_event, auth_event, opcode_event, query_reply, is_auth, is_legacy, reply_doc,
}

-- The fields of a document, of which there is one at least.
pub record Body : Type 0 where
  pub key : Bytes
  pub field : Field
  pub more : List (Bytes × Field)

abbrev pub fields : Body → List (Bytes × Field)
fields b = (b.key, b.field) ∷ b.more

abbrev pub flags : Bytes → Bytes
flags rest = with_flags 0 0 0 0 rest

-- A request, each with its number.
pub data Request : Type 0 where
  msg : ℕ → Body → Request
  -- An OP_QUERY to a collection, with the two numbers behind its name.
  query : ℕ → Bytes → Bytes → List (Bytes × Field) → Request
  -- A write or a fetch of the old protocol.
  legacy : ℕ → ℕ → Bytes → Request

abbrev pub request_id : Request → ℕ
request_id (msg id b) = id
request_id (query id collection counts fs) = id
request_id (legacy id op body) = id

abbrev pub op_of : Request → ℕ
op_of (msg id b) = 2013
op_of (query id collection counts fs) = 2004
op_of (legacy id op body) = op

abbrev pub payload_of : Request → Bytes
payload_of (msg id b) = flags (0 ∷ wire_doc (fields b))
payload_of (query id collection counts fs) = flags (collection ++ 0 ∷ (counts ++ wire_doc fs))
payload_of (legacy id op body) = body

abbrev pub IsDoc : List (Bytes × Field) → Type 0
IsDoc fs = All IsField fs × (5 + length (wire_fields fs) ≤ max_bson_doc)

abbrev pub IsBody : Request → Type 0
IsBody (msg id b) = IsDoc (fields b)
IsBody (query id collection counts fs) = Lacks 0 collection × (length counts ≡ 8) × IsDoc fs
IsBody (legacy id op body) = (is_legacy (signed32 op) ≡ true) × (op < 4294967296)

abbrev pub IsRequest : Request → Type 0
IsRequest r = (request_id r < 4294967296) × (16 + length (payload_of r) ≤ max_msg_size) × IsBody r

abbrev pub wire_request : Request → Bytes
wire_request r = wire_header (16 + length (payload_of r)) (request_id r) 0 (op_of r) ++ payload_of r

abbrev pub wire : List Request → Bytes
wire [] = []
wire (r ∷ rs) = wire_request r ++ wire rs

abbrev pub login : Env → Bytes → Option Bytes → List Event
login env command none = []
login env command (some user) = auth_event env command user ∷ []

abbrev pub command_of : Env → Body → Bytes
command_of env b = to_lower env.table b.key

-- The events, by the handler's own builders.
abbrev pub logged : Env → Request → List Event
logged env (msg id b) =
    msg_event env (record { command = command_of env b; doc = some (put_all (fields b) []) })
    ∷ (if is_auth (command_of env b)
        then login env (command_of env b) (string_of (last_kept (codes "user") (fields b)))
        else [])
logged env (query id collection counts fs) = query_event env collection (some (put_all fs [])) ∷ []
logged env (legacy id op body) = opcode_event env (signed32 op) ∷ []

abbrev pub all_logged : Env → List Request → List Event
all_logged env [] = []
all_logged env (r ∷ rs) = logged env r ++ all_logged env rs

-- The reply, by the handler's own builders, behind what was written before.
abbrev pub reply : Env → Bytes → Request → Bytes
reply env out (msg id b) =
    op_msg_message (env.order out) (signed32 id) (reply_doc env (command_of env b) (env.now out))
reply env out (query id collection counts fs) =
    op_reply_message (env.order out) (signed32 id) (query_reply env collection out)
reply env out (legacy id op body) = []

abbrev pub replied : Env → Bytes → List Request → Bytes
replied env out [] = out
replied env out (r ∷ rs) = replied env (out ++ reply env out r) rs

-- The writes that the replies take, before `n` more.
abbrev pub writes_for : Request → ℕ → ℕ
writes_for (msg id b) n = suc n
writes_for (query id collection counts fs) n = suc n
writes_for (legacy id op body) n = n

abbrev pub writes : List Request → ℕ → ℕ
writes [] n = n
writes (r ∷ rs) n = writes_for r (writes rs n)
