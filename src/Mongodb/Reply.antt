-- ===== src/Mongodb/Reply.antt =====
-- `sendOpReply`, `sendOpMsgReply` and the documents of the replies in
-- internal/proto/mongodb/handler.go.
pub mod RoundTrip
use white_toyota_tacoma.Common.{
  ℕ, ◌+◌, ◌*◌, ◌%◌, true, false, Option, none, some, [], ◌∷◌, ◌++◌, length,
}
use white_toyota_tacoma.Common.Int.{ℤ, pos}
use white_toyota_tacoma.Common.Bytes.{Bytes, codes, le32}
use white_toyota_tacoma.Conn.{M, send}
use white_toyota_tacoma.Mongodb.Encode.{
  Any, string, int, int64, bool, document, array, strings, ints, Entries, end, entry, nil, Order,
  bits, le64, or_minimal, encode_bson,
}

abbrev pub op_reply : ℕ
op_reply = 1

abbrev pub op_msg : ℕ
op_msg = 2013

-- The header of a message of `len` bytes.
abbrev pub header : ℕ → ℤ → ℕ → Bytes
header len response_to op =
    le32 (len % 4294967296) ++ (le32 0 ++ (le32 (bits 4294967296 response_to) ++ le32 op))

-- The documents of a reply, and how many there are: for `nil` there is none.
unfoldable pub doc_bytes : Order → Option Entries → Bytes
doc_bytes order none = []
doc_bytes order (some doc) = or_minimal (encode_bson order doc)

unfoldable pub num_docs : Option Entries → ℕ
num_docs none = 0
num_docs (some doc) = 1

-- The flags, the cursor, where it starts, and the documents.
unfoldable pub reply_body : ℕ → Bytes → Bytes
reply_body count docs = le32 8 ++ (le64 0 ++ (le32 0 ++ (le32 count ++ docs)))

unfoldable pub op_reply_message : Order → ℤ → Option Entries → Bytes
op_reply_message order response_to doc =
    let docs = doc_bytes order doc in
    header (36 + length docs) response_to op_reply ++ reply_body (num_docs doc) docs

-- The flags, the kind of the section, and its document.
unfoldable pub op_msg_message : Order → ℤ → Entries → Bytes
op_msg_message order response_to doc =
    let docs = or_minimal (encode_bson order doc) in
    header (21 + length docs) response_to op_msg ++ (le32 0 ++ 0 ∷ docs)

unfoldable pub send_op_reply : Order → ℤ → Option Entries → M (Unit {0})
send_op_reply order response_to doc = send (op_reply_message order response_to doc)

unfoldable pub send_op_msg_reply : Order → ℤ → Entries → M (Unit {0})
send_op_msg_reply order response_to doc = send (op_msg_message order response_to doc)

-- `buildIsMasterDoc`, at a time in milliseconds.
unfoldable pub is_master_doc : ℤ → Entries
is_master_doc now = entry (codes "ismaster") (bool true) (
    entry (codes "maxBsonObjectSize") (int (pos 16777216)) (
      entry (codes "maxMessageSizeBytes") (int (pos 48000000)) (
        entry (codes "maxWriteBatchSize") (int (pos 100000)) (
          entry (codes "localTime") (document (entry (codes "$date") (int64 now) end)) (
            entry (codes "logicalSessionTimeoutMinutes") (int (pos 30)) (
              entry (codes "minWireVersion") (int (pos 0)) (
                entry (codes "maxWireVersion") (int (pos 17)) (
                  entry (codes "readOnly") (bool false) (
                    entry (codes "ok") (int (pos 1))
                      (entry (codes "hosts") (strings []) end))))))))))

-- `buildInfoDoc`, of the version and `ESBuildHash`.
unfoldable pub build_info_doc : Bytes → Bytes → Entries
build_info_doc version build_hash = entry (codes "version") (string version) (
    entry (codes "gitVersion") (string build_hash) (
      entry (codes "sysInfo") (string (codes "Linux")) (
        entry (codes "versionArray") (ints (pos 7 ∷ pos 0 ∷ pos 8 ∷ pos 0 ∷ [])) (
          entry (codes "bits") (int (pos 64)) (
            entry (codes "debug") (bool false) (
              entry (codes "maxBsonObjectSize") (int (pos 16777216))
                (entry (codes "ok") (int (pos 1)) end)))))))

unfoldable pub ok_doc : Entries
ok_doc = entry (codes "ok") (int (pos 1)) end

unfoldable pub databases_doc : Entries
databases_doc =
    entry (codes "databases") (array nil)
      (entry (codes "totalSize") (int (pos 0)) (entry (codes "ok") (int (pos 1)) end))

unfoldable pub denied_doc : Entries
denied_doc = entry (codes "ok") (int (pos 0)) (
    entry (codes "errmsg") (string (codes "not authorized on admin to execute command"))
      (entry (codes "code") (int (pos 13)) end))
