-- ===== src/Mongodb/Message/RoundTrip.antt =====
-- A message is read back as it was written, with what follows it left unread.
use white_toyota_tacoma.Common.{
  ℕ, ◌+◌, ◌-◌, ◌≤◌, ◌<◌, ◌≡◌, refl, false, ◌||◌, [], ◌∷◌, ◌++◌, ◌==◌, length, arith,
}
use white_toyota_tacoma.Common.Int.{pos, ltb_ℤ}
use white_toyota_tacoma.Common.Bytes.{
  Bytes, le32, uint32_le-le32, slice_from, read_full, read_full-append,
}
use white_toyota_tacoma.Common.Result.{ok, err, eof}
use white_toyota_tacoma.Conn.{Conn}
use white_toyota_tacoma.Mongodb.Message.{
  Header, max_msg_size, signed32, int32_at, header_of, read_body, with_header, read_message,
}

abbrev pub wire_header : ℕ → ℕ → ℕ → ℕ → Bytes
wire_header len id to op = le32 len ++ (le32 id ++ (le32 to ++ le32 op))

header_of-wire_header :
    (len id to op : ℕ)
    → len < 4294967296
    → id < 4294967296
    → to < 4294967296
    → op < 4294967296
    → header_of (wire_header len id to op)
      ≡ ok (record {
        message_length = signed32 len;
        request_id = signed32 id;
        response_to = signed32 to;
        op_code = signed32 op;
      })
unfolding header_of int32_at slice_from
header_of-wire_header len id to op a b c d =
    rw (uint32_le-le32 len (le32 id ++ (le32 to ++ le32 op)) a) (
      rw (uint32_le-le32 id (le32 to ++ le32 op) b)
        (rw (uint32_le-le32 to (le32 op) c) (rw (uint32_le-le32 op [] d))))

read_body-append :
    (hdr : Header) (payload rest : Bytes) (c : Conn)
    → read_body hdr (length payload) (record c { input = payload ++ rest })
      ≡ (ok (hdr, payload), record c { input = rest })
unfolding read_body
read_body-append hdr [] rest c = refl
read_body-append hdr (b ∷ payload) rest c =
    let not_empty : (length (b ∷ payload) == 0) ≡ false = ground arith in
    rw not_empty (rw (read_full-append (b ∷ payload) rest))

-- `readMessage` reads back one message of at most 48 MB, with the numbers of its header as signed.
pub read_message-wire_header :
    (id to op : ℕ) (payload rest : Bytes) (c : Conn)
    → 16 + length payload ≤ max_msg_size
    → id < 4294967296
    → to < 4294967296
    → op < 4294967296
    → read_message
        (record c { input = wire_header (16 + length payload) id to op ++ (payload ++ rest) })
      ≡ (
        ok (
          record {
            message_length = pos (16 + length payload);
            request_id = signed32 id;
            response_to = signed32 to;
            op_code = signed32 op;
          },
          payload,
        ),
        record c { input = rest },
      )
unfolding read_message with_header
read_message-wire_header id to op payload rest c h a b d =
    rw (read_full-append (wire_header (16 + length payload) id to op) (payload ++ rest)) (
      rw (header_of-wire_header (16 + length payload) id to op (omega arith) a b d)
        (rw positive (rw (fits, minus) (read_body-append _ payload rest c))))
  where
    positive : signed32 (16 + length payload) ≡ pos (16 + length payload)
    positive = ground arith

    fits :
        (ltb_ℤ (pos (16 + length payload)) (pos 16)
          || ltb_ℤ (pos max_msg_size) (pos (16 + length payload)))
        ≡ false
    fits = ground arith

    minus : 16 + length payload - 16 ≡ length payload
    minus = omega arith

-- At the end of the input there is no message.
pub read_message_nil :
    (c : Conn) → read_message (record c { input = [] }) ≡ (err eof, record c { input = [] })
unfolding read_message read_full
read_message_nil c = refl
