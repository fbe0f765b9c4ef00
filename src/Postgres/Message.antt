-- ===== src/Postgres/Message.antt =====
-- `readMessage`, `readPasswordMessage`, `sendMsg` and the messages of
-- internal/proto/postgres/handler.go.
pub mod RoundTrip
use white_toyota_tacoma.Common.{
  ℕ, zero, suc, ◌+◌, ◌-◌, ◌*◌, ◌/◌, ◌%◌, Bool, true, false, ◌||◌, Option, none, some, List, [], ◌∷◌,
  ◌++◌, ltb, ◌==◌, if◌then◌else◌, length, take,
}
use white_toyota_tacoma.Common.Bytes.{Bytes, codes, be32, uint32_be, index_byte}
use white_toyota_tacoma.Common.Result.{Result, ok, err, failure, panic, reject}
use white_toyota_tacoma.Conn.{Conn, M, ◌>>=◌, ◌>>◌, pure, throw, lift, receive, send}

abbrev pub max_msg_len : ℕ
max_msg_len = 1024 * 1024

up_to : Bytes → Option ℕ → Bytes
up_to b none = b
up_to b (some i) = take i b

pub null_term_string : Bytes → Bytes
null_term_string b = up_to b (index_byte b 0)

-- The payload, whose length field counts itself.
read_payload : ℕ → ℕ → M (ℕ × Bytes)
read_payload msg_type len =
    if ltb len 4 || ltb max_msg_len (len - 4)
    then throw (failure "invalid message length: %d")
    else if len - 4 == 0
    then pure (msg_type, [])
    else (receive (len - 4) >>= λ payload. pure (msg_type, payload))

with_header : Bytes → M (ℕ × Bytes)
with_header [] = throw panic
with_header (msg_type ∷ rest) = lift (uint32_be rest) >>= read_payload msg_type

-- The type and the payload of one message.
pub read_message : M (ℕ × Bytes)
read_message = receive 5 >>= with_header

abbrev pub type_password : ℕ
type_password = 112

password_of : ℕ × Bytes → M Bytes
password_of (msg_type, payload) =
    if msg_type == type_password
    then pure (null_term_string payload)
    else throw (failure "expected PasswordMessage, got %q")

pub read_password_message : M Bytes
read_password_message = read_message >>= password_of

abbrev pub message : ℕ → Bytes → Bytes
message msg_type body = msg_type ∷ (be32 (4 + length body) ++ body)

unfoldable pub send_msg : ℕ → Bytes → M (Unit {0})
send_msg msg_type body = send (message msg_type body)

unfoldable pub send_auth_md5 : Bytes → M (Unit {0})
send_auth_md5 salt = send (82 ∷ (be32 12 ++ (be32 5 ++ take 4 salt)))

unfoldable pub send_auth_ok : M (Unit {0})
send_auth_ok = send (82 ∷ 0 ∷ 0 ∷ 0 ∷ 8 ∷ 0 ∷ 0 ∷ 0 ∷ 0 ∷ [])

abbrev pub param_body : Bytes → Bytes → Bytes
param_body key val = key ++ 0 ∷ (val ++ 0 ∷ [])

unfoldable pub send_param_status : Bytes → Bytes → M (Unit {0})
send_param_status key val = send_msg 83 (param_body key val)

unfoldable pub send_backend_key_data : ℕ → ℕ → M (Unit {0})
send_backend_key_data pid key = send_msg 75 (be32 pid ++ be32 key)

unfoldable pub send_ready_for_query : ℕ → M (Unit {0})
send_ready_for_query status = send_msg 90 (status ∷ [])

unfoldable pub send_empty_query_response : M (Unit {0})
send_empty_query_response = send_msg 73 []

abbrev pub error_body : Bytes → Bytes → Bytes
error_body code msg = codes "SERROR" ++ 0 ∷ 67 ∷ (code ++ 0 ∷ 77 ∷ (msg ++ 0 ∷ 0 ∷ []))

unfoldable pub send_error_response : Bytes → Bytes → M (Unit {0})
send_error_response code msg = send_msg 69 (error_body code msg)
