-- ===== src/Mysql/Packet.antt =====
-- `readPacket`, `writePacket` and the replies of internal/proto/mysql/handler.go.
pub mod RoundTrip
use white_toyota_tacoma.Common.{
  ℕ, zero, suc, ◌+◌, ◌-◌, ◌*◌, ◌/◌, ◌%◌, Bool, true, false, List, [], ◌∷◌, ◌++◌, ltb, ◌==◌,
  if◌then◌else◌, length,
}
use white_toyota_tacoma.Common.Bytes.{Bytes, read_full}
use white_toyota_tacoma.Common.Result.{Result, ok, err, failure, panic}
use white_toyota_tacoma.Conn.{Conn, M, ◌>>=◌, ◌>>◌, pure, throw, lift, receive, send}

-- The largest length that three bytes can hold.
abbrev pub max_packet_size : ℕ
max_packet_size = 16 * 1024 * 1024 - 1

read_payload : ℕ → ℕ → M (ℕ × Bytes)
read_payload size seq =
    if ltb max_packet_size size
    then throw (failure "packet too large: %d")
    else if size == 0
    then pure (seq, [])
    else (receive size >>= λ payload. pure (seq, payload))

header_of : Bytes → M (ℕ × Bytes)
unfolding read_payload
header_of (a ∷ b ∷ c ∷ seq ∷ _) = read_payload (a + b * 256 + c * 65536) seq
header_of _ = throw panic

-- The sequence number and the payload of one packet.
unfoldable pub read_packet : M (ℕ × Bytes)
unfolding header_of read_full
read_packet = receive 4 >>= header_of

-- The bytes of `byte(n), byte(n >> 8), byte(n >> 16)`
abbrev pub length24 : ℕ → Bytes
length24 n = n % 256 ∷ n / 256 % 256 ∷ n / 65536 % 256 ∷ []

abbrev pub packet : ℕ → Bytes → Bytes
packet seq payload = length24 (length payload) ++ seq ∷ payload

unfoldable pub write_packet : ℕ → Bytes → M (Unit {0})
write_packet seq payload = do send (length24 (length payload) ++ seq ∷ []); send payload

-- A sequence number is a byte.
abbrev pub next_seq : ℕ → ℕ
next_seq seq = (seq + 1) % 256

abbrev pub ok_payload : Bytes
ok_payload = 0x00 ∷ 0x00 ∷ 0x00 ∷ 0x02 ∷ 0x00 ∷ 0x00 ∷ 0x00 ∷ []

unfoldable pub send_ok : ℕ → M (Unit {0})
send_ok seq = write_packet seq ok_payload

abbrev pub eof_payload : Bytes
eof_payload = 0xfe ∷ 0x00 ∷ 0x00 ∷ 0x02 ∷ 0x00 ∷ []

unfoldable pub send_empty_result_set : ℕ → M (Unit {0})
send_empty_result_set seq = do write_packet seq (0x00 ∷ []); write_packet (next_seq seq) eof_payload
