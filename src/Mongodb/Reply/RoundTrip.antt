-- ===== src/Mongodb/Reply/RoundTrip.antt =====
-- A client that reads a reply finds what the handler put into it.
use mathlib.Core.List.{Permᴰ}
use white_toyota_tacoma.Common.{
  ℕ, ◌+◌, ◌≤◌, ◌<◌, ◌≡◌, ap, ◌∙◌, some, [], ◌∷◌, ◌++◌, length, arith, append-nil, subst,
}
use white_toyota_tacoma.Common.Int.{ℤ, pos}
use white_toyota_tacoma.Common.Bytes.{Bytes, le32}
use white_toyota_tacoma.Common.Result.{ok}
use white_toyota_tacoma.Conn.{Conn}
use white_toyota_tacoma.Mongodb.Bson.{Doc, find, max_bson_doc, parse_bson_doc}
use white_toyota_tacoma.Mongodb.Encode.{Order, Entries, bits, elements, or_minimal, encode_bson}
use white_toyota_tacoma.Mongodb.Encode.Wire.{inside, InRange, bits-lt, AllFit, length-encode_bson}
use white_toyota_tacoma.Mongodb.Encode.RoundTrip.{
  value_at, occurrences, signed-bits, parse_bson_doc-encode_bson,
}
use white_toyota_tacoma.Mongodb.Message.{max_msg_size, signed32, read_message}
use white_toyota_tacoma.Mongodb.Message.RoundTrip.{read_message-wire_header}
use white_toyota_tacoma.Mongodb.Reply.{
  op_reply, op_msg, header, doc_bytes, num_docs, reply_body, op_reply_message, op_msg_message,
}

pair : {a b a' b' : ℤ} → a ≡ a' → b ≡ b' → ◌≡◌ {A = ℤ × ℤ} (a, b) (a', b')
pair e f = cc

small_op : (op : ℕ) → op < 2147483648 → signed32 op ≡ pos op
small_op op h = ground arith

-- A message as it is written, read back.
header_exact :
    (response_to : ℤ) (op : ℕ) (body rest : Bytes) (c : Conn)
    → InRange 2147483648 response_to
    → op < 2147483648
    → 16 + length body ≤ max_msg_size
    → read_message (record c { input = (header (16 + length body) response_to op ++ body) ++ rest })
      ≡ (
        ok (
          record {
            message_length = pos (16 + length body);
            request_id = pos 0;
            response_to = response_to;
            op_code = pos op;
          },
          body,
        ),
        record c { input = rest },
      )
header_exact response_to op body rest c r o h =
    let b : ℕ = bits 4294967296 response_to in
    ap
      (λ k.
        read_message
          (record c { input = (le32 k ++ (le32 0 ++ (le32 b ++ le32 op))) ++ (body ++ rest) }))
      (omega arith)
    ∙ read_message-wire_header 0 b op body rest c h (omega arith) (bits-lt response_to)
        (omega arith)
    ∙ ap
        (λ (p : ℤ × ℤ). (
          ok (
            record {
              message_length = pos (16 + length body);
              request_id = pos 0;
              response_to = p.0;
              op_code = p.1;
            },
            body,
          ),
          record c { input = rest },
        ))
        (pair (signed-bits response_to r) (small_op op o))

read_message-header :
    (n : ℕ) (response_to : ℤ) (op : ℕ) (body rest : Bytes) (c : Conn)
    → n ≡ 16 + length body
    → InRange 2147483648 response_to
    → op < 2147483648
    → n ≤ max_msg_size
    → read_message (record c { input = (header n response_to op ++ body) ++ rest }) ≡ (
      ok (
        record {
          message_length = pos n;
          request_id = pos 0;
          response_to = response_to;
          op_code = pos op;
        },
        body,
      ),
      record c { input = rest },
    )
read_message-header n response_to op body rest c e r o h =
    rw e (header_exact response_to op body rest c r o (omega (arith, e)))

-- What a client finds in the document of a reply: under each key what the handler put there.
abbrev pub Reads : Bytes → Entries → Type 0
Reads raw doc =
    (d : Doc) × (parse_bson_doc raw ≡ ok (some (d, length raw)))
    × ((key : Bytes) → occurrences key doc ≤ 1 → find key d ≡ value_at key doc)

Reads-encode_bson :
    (order : Order) (doc : Entries)
    → Permᴰ (elements order doc) (order (elements order doc))
    → AllFit order doc
    → 4 + length (inside order (elements order doc)) ≤ max_bson_doc
    → Reads (or_minimal (encode_bson order doc)) doc
Reads-encode_bson order doc p h small =
    let (d, e, found) = parse_bson_doc-encode_bson order doc [] p h small in
    (
      d,
      subst (λ raw. parse_bson_doc raw ≡ ok (some (d, length (or_minimal (encode_bson order doc)))))
          (append-nil (or_minimal (encode_bson order doc))) e,
      found,
    )

-- The reply to an OP_MSG is one message of the protocol. A client that reads it finds the number of
-- its request, the opcode, no flags, and one section with the document, in which it finds under each
-- key what the handler put there, whatever the order in which Go visits the map; what follows is
-- left. The number of the request is one of 32 bits, and the document is as for `encodeBSON`.
pub read_message-op_msg_message :
    (order : Order) (response_to : ℤ) (doc : Entries) (rest : Bytes) (c : Conn)
    → Permᴰ (elements order doc) (order (elements order doc))
    → InRange 2147483648 response_to
    → AllFit order doc
    → 4 + length (inside order (elements order doc)) ≤ max_bson_doc
    → (raw : Bytes) × (read_message
          (record c { input = op_msg_message order response_to doc ++ rest })
        ≡ (
          ok (
            record {
              message_length = pos (21 + length raw);
              request_id = pos 0;
              response_to = response_to;
              op_code = pos op_msg;
            },
            le32 0 ++ 0 ∷ raw,
          ),
          record c { input = rest },
        ))
      × Reads raw doc
unfolding op_msg_message
read_message-op_msg_message order response_to doc rest c p r h small =
    let raw = or_minimal (encode_bson order doc) in
    (
      raw,
      read_message-header (21 + length raw) response_to op_msg (le32 0 ++ 0 ∷ raw) rest c
          (omega arith) r (omega arith)
          (omega (arith, length-encode_bson order doc (omega (arith, small)), small)),
      Reads-encode_bson order doc p h small,
    )

-- So is the reply to an OP_QUERY, which says how many documents it has: one, or none where the
-- handler has no document for it.
pub read_message-op_reply_message :
    (order : Order) (response_to : ℤ) (doc : Entries) (rest : Bytes) (c : Conn)
    → Permᴰ (elements order doc) (order (elements order doc))
    → InRange 2147483648 response_to
    → AllFit order doc
    → 4 + length (inside order (elements order doc)) ≤ max_bson_doc
    → (raw : Bytes) × (read_message
          (record c { input = op_reply_message order response_to (some doc) ++ rest })
        ≡ (
          ok (
            record {
              message_length = pos (36 + length raw);
              request_id = pos 0;
              response_to = response_to;
              op_code = pos op_reply;
            },
            reply_body 1 raw,
          ),
          record c { input = rest },
        ))
      × Reads raw doc
unfolding op_reply_message doc_bytes num_docs reply_body
read_message-op_reply_message order response_to doc rest c p r h small =
    let raw = or_minimal (encode_bson order doc) in
    (
      raw,
      read_message-header (36 + length raw) response_to op_reply (reply_body 1 raw) rest c
          (omega arith) r (omega arith)
          (omega (arith, length-encode_bson order doc (omega (arith, small)), small)),
      Reads-encode_bson order doc p h small,
    )
