-- ===== src/Mongodb/Tests.antt =====
-- The MongoDB service on small inputs.
use mathlib.Core.List.Permᴰ
use mathlib.Core.List.{Permᴰ}
use white_toyota_tacoma.Common.{
  ◌+◌, ◌≤◌, ◌≡◌, ◌≢◌, refl, true, some, List, [], ◌∷◌, ◌++◌, length, replicate, All, arith,
}
use white_toyota_tacoma.Common.Int.{pos}
use white_toyota_tacoma.Common.Bytes.{Bytes, codes, le32}
use white_toyota_tacoma.Common.Utf8.{CaseTable, to_lower}
use white_toyota_tacoma.Common.Result.{ok, err, panic}
use white_toyota_tacoma.Conn.{Conn}
use white_toyota_tacoma.Conn.Loop.{loop}
use white_toyota_tacoma.Fingerprint.{new}
use white_toyota_tacoma.Mongodb.Bson.{Doc, parse_bson_doc, find}
use white_toyota_tacoma.Mongodb.Bson.Fields.{Field, text, number, flag, IsField, wire_doc, put_all}
use white_toyota_tacoma.Mongodb.Encode.{
  Order, string, int, Entries, end, entry, elements, encode_bson, or_minimal,
}
use white_toyota_tacoma.Mongodb.Encode.RoundTrip.{occurrences, value_at, parse_bson_doc-encode_bson}
use white_toyota_tacoma.Mongodb.Message.{read_message}
use white_toyota_tacoma.Mongodb.Reply.{op_msg, op_msg_message}
use white_toyota_tacoma.Mongodb.Reply.RoundTrip.{Reads, read_message-op_msg_message}
use white_toyota_tacoma.Mongodb.Sections.{sections}
use white_toyota_tacoma.Mongodb.Sections.Captured.{with_flags, sections-wire_doc}
use white_toyota_tacoma.Mongodb.Session.{Env, round, handler}
use white_toyota_tacoma.Mongodb.Session.Total.{mongo_round-ne-panic, mongo_loop_total}
use white_toyota_tacoma.Mongodb.Session.Spec.{Request, msg, query, legacy, wire}
use white_toyota_tacoma.Fingerprint.Sample.{drawn}

abbrev table : CaseTable
table = record { upper = λ r. r; lower = λ r. r }

-- `{saslStart: 1, user: "root", ok: true}`
abbrev more : List (Bytes × Field)
more = (codes "user", text (codes "root")) ∷ (codes "ok", flag true) ∷ []

abbrev fields : List (Bytes × Field)
fields = (codes "saslStart", number 1) ∷ more

fields-IsField : All IsField fields
fields-IsField = omega arith

abbrev conn : Conn
conn = record { input = []; output = []; accepts = 4; alive = 4; events = [] }

-- A string that claims to be longer than the document.
abbrev short : Bytes
short = 16 ∷ 0 ∷ 0 ∷ 0 ∷ 2 ∷ 97 ∷ 0 ∷ 255 ∷ 255 ∷ 0 ∷ 0 ∷ 98 ∷ 0 ∷ 0 ∷ 0 ∷ 0 ∷ []

sections-wire_doc_example :
    (sections table (with_flags 1 0 0 0 (0 ∷ wire_doc fields))
      ≡ ok
          (record { command = to_lower table (codes "saslStart"); doc = some (put_all fields []) }))
    × (sections table (with_flags 1 0 0 0 (0 ∷ (wire_doc fields ++ 0 ∷ 9 ∷ 9 ∷ 9 ∷ [])))
        ≡ ok (record { command = []; doc = some (put_all fields []) }))
sections-wire_doc_example =
    sections-wire_doc table 1 0 0 0 (codes "saslStart") (number 1) more 9 9 9 fields-IsField
      (omega arith) (λ e. omega arith) (λ e. omega arith)

-- Go visits the second element of a map first.
abbrev swapped : Order
swapped [] = []
swapped (a ∷ []) = a ∷ []
swapped (a ∷ b ∷ elems) = b ∷ a ∷ elems

swapped-Permᴰ : (elems : List Bytes) → Permᴰ elems (swapped elems)
swapped-Permᴰ [] = Permᴰ.refl []
swapped-Permᴰ (a ∷ []) = Permᴰ.refl (a ∷ [])
swapped-Permᴰ (a ∷ b ∷ elems) = Permᴰ.swap refl refl

abbrev answer : Entries
answer =
    entry (codes "ok") (int (pos 0))
      (entry (codes "errmsg") (string (codes "denied")) (entry (codes "code") (int (pos 13)) end))

parse_bson_doc-encode_bson_example :
    (d : Doc) × (parse_bson_doc (or_minimal (encode_bson swapped answer) ++ codes "rest")
      ≡ ok (some (d, length (or_minimal (encode_bson swapped answer)))))
    × ((key : Bytes) → occurrences key answer ≤ 1 → find key d ≡ value_at key answer)
unfolding elements
parse_bson_doc-encode_bson_example =
    parse_bson_doc-encode_bson swapped answer (codes "rest")
      (swapped-Permᴰ (elements swapped answer)) (omega arith) (omega arith)

read_message-op_msg_message_example :
    (raw : Bytes) × (read_message
        (record conn { input = op_msg_message swapped (pos 7) answer ++ codes "rest" })
      ≡ (
        ok (
          record {
            message_length = pos (21 + length raw);
            request_id = pos 0;
            response_to = pos 7;
            op_code = pos op_msg;
          },
          le32 0 ++ 0 ∷ raw,
        ),
        record conn { input = codes "rest" },
      ))
    × Reads raw answer
unfolding elements
read_message-op_msg_message_example =
    read_message-op_msg_message swapped (pos 7) answer (codes "rest") conn
      (swapped-Permᴰ (elements swapped answer)) (omega arith) (omega arith) (omega arith)

abbrev env : Env
env = record {
  peer = record { ip = codes "203.0.113.9"; port = 40000 };
  fp = new (codes "node-1") drawn;
  version = codes "7.0.8";
  table = table;
  order = λ out. swapped;
  now = λ out. pos (length out);
}

-- A login, a query and an insert of the old protocol.
abbrev requests : List Request
requests =
    msg 1 (record { key = codes "saslStart"; field = number 1; more = more })
    ∷ query 2 (codes "admin.$cmd") (replicate 8 0) fields
    ∷ legacy 3 2002 (codes "abc")
    ∷ []

mongo_round-ne-panic_example : (round env tt (record conn { input = wire requests })).0 ≢ err panic
mongo_round-ne-panic_example = mongo_round-ne-panic env (record conn { input = wire requests })

mongo_loop_total_example :
    (d : Conn) × (loop 20 (round env) tt (record conn { input = short }) ≡ some d)
    × (handler env (record conn { input = short }) ≡ some d)
mongo_loop_total_example = mongo_loop_total env (record conn { input = short }) 20 (omega arith)
