-- ===== src/Mongodb/Message.antt =====
-- `msgHeader` and `readMessage` of internal/proto/mongodb/handler.go.
pub mod RoundTrip
pub mod Safe
use white_toyota_tacoma.Common.{
  ℕ, zero, suc, ◌+◌, ◌-◌, ◌*◌, ◌/◌, ◌%◌, Bool, true, false, ◌||◌, List, [], ◌∷◌, ◌++◌, ltb, ◌==◌,
  if◌then◌else◌, length,
}
use white_toyota_tacoma.Common.Int.{ℤ, pos, negsuc, ltb_ℤ, pos_part}
use white_toyota_tacoma.Common.Bytes.{Bytes, uint32_le, slice_from}
use white_toyota_tacoma.Common.Result.{Result, ok, err, failure, ◌>>=◌}
use white_toyota_tacoma.Conn as Conn
use white_toyota_tacoma.Conn.{M, lift, throw, pure, receive}
use white_toyota_tacoma.Mongodb.Bson.{signed}

pub record Header : Type 0 where
  pub message_length : ℤ
  pub request_id : ℤ
  pub response_to : ℤ
  pub op_code : ℤ

abbrev pub max_msg_size : ℕ
max_msg_size = 48 * 1024 * 1024

abbrev pub signed32 : ℕ → ℤ
signed32 = signed 2147483648

-- `int32(binary.LittleEndian.Uint32(buf[i:]))`
int32_at : Bytes → ℕ → Result ℤ
int32_at buf i = do tail ← slice_from buf i; n ← uint32_le tail; ok (signed32 n)

header_of : Bytes → Result Header
header_of buf = do
  message_length ← int32_at buf 0
  request_id ← int32_at buf 4
  response_to ← int32_at buf 8
  op_code ← int32_at buf 12
  ok (record {
    message_length = message_length;
    request_id = request_id;
    response_to = response_to;
    op_code = op_code;
  })

-- The body, of a message whose length is in range.
read_body : Header → ℕ → M (Header × Bytes)
read_body hdr body_len =
    if body_len == 0
    then pure (hdr, [])
    else Conn.◌>>=◌ (receive body_len) (λ payload. pure (hdr, payload))

with_header : Header → M (Header × Bytes)
with_header hdr =
    if ltb_ℤ hdr.message_length (pos 16) || ltb_ℤ (pos max_msg_size) hdr.message_length
    then throw (failure "invalid message length: %d")
    else read_body hdr (pos_part hdr.message_length - 16)

-- The header and the body of one message.
pub read_message : M (Header × Bytes)
read_message = Conn.◌>>=◌ (receive 16) (λ buf. Conn.◌>>=◌ (lift (header_of buf)) with_header)
