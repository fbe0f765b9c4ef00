-- ===== src/Mongodb/Session/Expected.antt =====
-- What a client and the log are to be given for each request, written out: the events field by
-- field, the documents of the replies as tables, and the replies byte by byte.
use white_toyota_tacoma.Common.{
  ℕ, ◌+◌, ◌%◌, Bool, true, false, not, ◌&&◌, ◌||◌, Option, none, some, List, [], ◌∷◌, ◌++◌, leb,
  ◌==◌, if◌then◌else◌, length, take, map,
}
use white_toyota_tacoma.Common.Int.{ℤ, pos}
use white_toyota_tacoma.Common.Bytes.{Bytes, codes, same, le32}
use white_toyota_tacoma.Common.Decimal.{format_int}
use white_toyota_tacoma.Common.Json.{json_object}
use white_toyota_tacoma.Common.Quote.{json_string}
use white_toyota_tacoma.Common.Utf8.{CaseTable, string_map, to_lower}
use white_toyota_tacoma.Capture.{Event}
use white_toyota_tacoma.Mongodb.Bson.{Value, Doc, string_of}
use white_toyota_tacoma.Mongodb.Bson.Fields.{put_all}
use white_toyota_tacoma.Mongodb.Bson.Lookup.{last_kept}
use white_toyota_tacoma.Mongodb.Encode.{
  Any, string, int, int64, bool, document, array, strings, ints, Entries, end, entry, nil, Order,
  le64, or_minimal, encode_bson,
}
use white_toyota_tacoma.Mongodb.Message.{signed32}
use white_toyota_tacoma.Mongodb.Session.{Env, has_suffix}
use white_toyota_tacoma.Mongodb.Session.Spec.{Request, msg, query, legacy, fields, command_of}

-- Text without ASCII control characters.
abbrev pub visible : ℕ → Option ℕ
visible r = if leb 0x20 r && not (r == 0x7f) then some r else none

unfoldable pub shown : Bytes → Bytes
shown s = string_map visible s

-- A document as JSON, of which the first 2048 bytes are kept.
abbrev truth : Bool → Bytes
truth b = if b then codes "true" else codes "false"

unfoldable pub value_text : Value → Bytes
value_text (Value.string s) = json_string s
value_text (Value.int32 n) = format_int n
value_text (Value.int64 n) = format_int n
value_text (Value.boolean b) = truth b

unfoldable pub doc_text : Doc → Bytes
doc_text doc = json_object (map (λ e. (e.0, value_text e.1)) doc)

-- An event of the client, in which only these three fields differ.
abbrev pub logged_as : Env → Bytes → Bytes → Bytes → Event
logged_as env user command payload = record {
  timestamp = [];
  protocol = codes "mongodb";
  src_ip = env.peer.ip;
  src_port = env.peer.port;
  username = user;
  password = [];
  database = [];
  auth_hash = [];
  command = command;
  payload = payload;
}

-- What a command is answered.
pub data Answer : Type 0 where
  hello done build_info databases denied : Answer

abbrev answers : List (Bytes × Answer)
answers =
    (codes "ismaster", hello)
    ∷ (codes "hello", hello)
    ∷ (codes "isMaster", hello)
    ∷ (codes "ping", done)
    ∷ (codes "buildinfo", build_info)
    ∷ (codes "buildInfo", build_info)
    ∷ (codes "listdatabases", databases)
    ∷ (codes "listDatabases", databases)
    ∷ (codes "saslstart", done)
    ∷ (codes "saslcontinue", done)
    ∷ (codes "authenticate", done)
    ∷ []

unfoldable pub answer_in : List (Bytes × Answer) → Bytes → Answer
answer_in [] command = denied
answer_in ((name, a) ∷ table) command = if same command name then a else answer_in table command

abbrev pub answer_of : Bytes → Answer
answer_of command = answer_in answers command

abbrev doc : List (Bytes × Any) → Entries
doc [] = end
doc ((key, v) ∷ more) = entry key v (doc more)

abbrev number : ℕ → Any
number n = int (pos n)

abbrev pub hello_doc : ℤ → Entries
hello_doc now = doc (
    (codes "ismaster", bool true)
    ∷ (codes "maxBsonObjectSize", number 16777216)
    ∷ (codes "maxMessageSizeBytes", number 48000000)
    ∷ (codes "maxWriteBatchSize", number 100000)
    ∷ (codes "localTime", document (doc ((codes "$date", int64 now) ∷ [])))
    ∷ (codes "logicalSessionTimeoutMinutes", number 30)
    ∷ (codes "minWireVersion", number 0)
    ∷ (codes "maxWireVersion", number 17)
    ∷ (codes "readOnly", bool false)
    ∷ (codes "ok", number 1)
    ∷ (codes "hosts", strings [])
    ∷ [])

abbrev pub answer_doc : Env → ℤ → Answer → Entries
answer_doc env now hello = hello_doc now
answer_doc env now done = doc ((codes "ok", number 1) ∷ [])
answer_doc env now build_info = doc (
    (codes "version", string env.version)
    ∷ (codes "gitVersion", string env.fp.es_build_hash)
    ∷ (codes "sysInfo", string (codes "Linux"))
    ∷ (codes "versionArray", ints (pos 7 ∷ pos 0 ∷ pos 8 ∷ pos 0 ∷ []))
    ∷ (codes "bits", number 64)
    ∷ (codes "debug", bool false)
    ∷ (codes "maxBsonObjectSize", number 16777216)
    ∷ (codes "ok", number 1)
    ∷ [])
answer_doc env now databases =
    doc
      ((codes "databases", array nil) ∷ (codes "totalSize", number 0) ∷ (codes "ok", number 1) ∷ [])
answer_doc env now denied = doc (
    (codes "ok", number 0)
    ∷ (codes "errmsg", string (codes "not authorized on admin to execute command"))
    ∷ (codes "code", number 13)
    ∷ [])

abbrev pub raw_doc : Order → Entries → Bytes
raw_doc order d = or_minimal (encode_bson order d)

-- A message in answer to the request of this number: its length, its own number, the request's,
-- its kind and its body.
abbrev pub message : ℕ → ℕ → Bytes → Bytes
message id op body =
    le32 ((16 + length body) % 4294967296) ++ (le32 0 ++ (le32 id ++ (le32 op ++ body)))

-- The documents of an OP_REPLY, behind the flags, the cursor, its start and their number.
abbrev pub reply_docs : Env → Bytes → Bool → Bytes
reply_docs env out true = le32 1 ++ raw_doc (env.order out) (hello_doc (env.now out))
reply_docs env out false = le32 0

abbrev pub asks_admin : CaseTable → Bytes → Bool
asks_admin t collection =
    has_suffix (to_lower t collection) (codes ".$cmd")
    || has_suffix (to_lower t collection) (codes ".system.namespaces")

-- The reply, behind what was written before.
abbrev pub answer_to : Env → Bytes → Request → Bytes
answer_to env out (msg id b) = message id 2013 (
    le32 0
    ++ 0 ∷ raw_doc (env.order out) (answer_doc env (env.now out) (answer_of (command_of env b))))
answer_to env out (query id collection counts fs) =
    message id 1
      (le32 8 ++ (le64 0 ++ (le32 0 ++ reply_docs env out (asks_admin env.table collection))))
answer_to env out (legacy id op body) = []

abbrev pub answered : Env → Bytes → List Request → Bytes
answered env out [] = out
answered env out (r ∷ rs) = answered env (out ++ answer_to env out r) rs

-- The user of an authentication, where its document names one.
abbrev is_login : Bytes → Bool
is_login command =
    same command (codes "saslstart")
    || (same command (codes "saslcontinue") || same command (codes "authenticate"))

abbrev pub user_logged : Env → Bytes → Option Bytes → List Event
user_logged env command none = []
user_logged env command (some user) = logged_as env user (codes "AUTH " ++ command) [] ∷ []

abbrev pub events_of : Env → Request → List Event
events_of env (msg id b) =
    logged_as env [] (codes "OP_MSG " ++ shown (command_of env b))
      (take 2048 (doc_text (put_all (fields b) [])))
    ∷ (if is_login (command_of env b)
        then user_logged env (command_of env b) (string_of (last_kept (codes "user") (fields b)))
        else [])
events_of env (query id collection counts fs) =
    logged_as env [] (codes "OP_QUERY " ++ shown collection) (take 2048 (doc_text (put_all fs [])))
    ∷ []
events_of env (legacy id op body) =
    logged_as env [] (codes "opcode:" ++ format_int (signed32 op)) [] ∷ []

abbrev pub all_events : Env → List Request → List Event
all_events env [] = []
all_events env (r ∷ rs) = events_of env r ++ all_events env rs
