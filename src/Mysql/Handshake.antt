-- ===== src/Mysql/Handshake.antt =====
-- `sendHandshake` and `readHandshakeResponse` of internal/proto/mysql/handler.go. Slices and
-- indices that are out of range are faults here, as in Go.
pub mod Safety
pub mod RoundTrip
use white_toyota_tacoma.Common.{
  ℕ, zero, suc, ◌+◌, ◌-◌, ◌*◌, ◌/◌, ◌%◌, Bool, true, false, ◌&&◌, Option, none, some, List, [], ◌∷◌,
  ◌++◌, ltb, leb, ◌==◌, if◌then◌else◌, length, take, drop, replicate,
}
use white_toyota_tacoma.Common.Bytes.{
  Bytes, codes, le32, uint32_le, index_byte, byte_at, slice, slice_from,
}
use white_toyota_tacoma.Common.Result.{Result, ok, err, failure, ◌>>=◌, ◌>>◌, reject, or_fail}
use white_toyota_tacoma.Mysql.Packet.{length24}

abbrev pub cap_long_pwd : ℕ
cap_long_pwd = 0x00000001

abbrev pub cap_conn_with_db : ℕ
cap_conn_with_db = 0x00000008

abbrev pub cap_secure_conn : ℕ
cap_secure_conn = 0x00008000

abbrev pub cap_plugin_auth : ℕ
cap_plugin_auth = 0x00080000

-- Distinct bits, so that `|` is their sum.
abbrev pub server_caps : ℕ
server_caps = cap_long_pwd + cap_conn_with_db + cap_secure_conn + cap_plugin_auth

-- `caps&bit != 0`, for a power of two.
abbrev pub has_cap : ℕ → ℕ → Bool
has_cap caps bit = caps / bit % 2 == 1

abbrev pub plugin : Bytes
plugin = codes "mysql_native_password"

-- The size that `sendHandshake` allocates.
abbrev pub payload_len : Bytes → ℕ
payload_len version =
    1 + length version + 1 + 4 + 8 + 1 + 2 + 1 + 2 + 2 + 1 + 10 + 13 + length plugin + 1

-- What it writes into the payload, from front to back.
unfoldable pub handshake_payload : Bytes → ℕ → Bytes → Bytes
handshake_payload version conn_id scramble =
    10
    ∷ (version
        ++ (0
            ∷ (le32 conn_id
                ++ (take 8 scramble
                    ++ (0
                        ∷ server_caps % 256
                        ∷ server_caps / 256 % 256
                        ∷ 0x21
                        ∷ 0x02
                        ∷ 0x00
                        ∷ server_caps / 65536 % 256
                        ∷ server_caps / 16777216 % 256
                        ∷ 21
                        ∷ (replicate 10 0 ++ (drop 8 scramble ++ (0 ∷ (plugin ++ 0 ∷ [])))))))))

-- The packet, in the one write that sends it.
unfoldable pub handshake : Bytes → ℕ → Bytes → Bytes
unfolding handshake_payload
handshake version conn_id scramble =
    length24 (payload_len version) ++ 0 ∷ handshake_payload version conn_id scramble

pub record Login : Type 0 where
  pub username : Bytes
  pub database : Bytes
  pub auth_resp : Bytes

-- The answer with a length byte, and the position behind it.
auth_prefixed : Bytes → ℕ → Result (Bytes × ℕ)
auth_prefixed payload pos = do
  auth_len ← byte_at payload pos
  reject (ltb (length payload) (pos + 1 + auth_len)) (failure "auth response out of bounds")
  auth ← slice payload (pos + 1) (pos + 1 + auth_len)
  ok (auth, pos + 1 + auth_len)

abbrev pub or_else : Option ℕ → ℕ → ℕ
or_else none n = n
or_else (some i) n = i

-- The answer up to a NUL, or to the end.
auth_terminated : Bytes → ℕ → Result (Bytes × ℕ)
auth_terminated payload pos = do
  tail ← slice_from payload pos
  let end = or_else (index_byte tail 0) (length payload - pos)
  auth ← slice payload pos (pos + end)
  ok (auth, pos + end + 1)

database_up_to : Bytes → ℕ → Option ℕ → Result Bytes
database_up_to payload pos none = ok []
database_up_to payload pos (some end) = slice payload pos (pos + end)

database_at : ℕ → Bytes → ℕ → Result Bytes
database_at caps payload pos =
    if has_cap caps cap_conn_with_db && ltb pos (length payload)
    then (slice_from payload pos >>= λ tail. database_up_to payload pos (index_byte tail 0))
    else ok []

-- What follows the username.
parse_auth : ℕ → Bytes → Bytes → ℕ → Result Login
parse_auth caps username payload pos = do
  reject (leb (length payload) pos) (failure "handshake response truncated after username")
  (auth, behind) ←
      if has_cap caps cap_secure_conn
      then auth_prefixed payload pos
      else auth_terminated payload pos
  database ← database_at caps payload behind
  ok (record { username = username; database = database; auth_resp = auth })

-- The payload of a HandshakeResponse41.
pub parse_handshake_response : Bytes → Result Login
parse_handshake_response payload = do
  reject (ltb (length payload) 32) (failure "handshake response too short")
  caps ← uint32_le payload
  let pos = 4 + 4 + 1 + 23
  reject (leb (length payload) pos) (failure "handshake response truncated at reserved")
  tail ← slice_from payload pos
  end ← or_fail (index_byte tail 0) (failure "username not null-terminated")
  username ← slice payload pos (pos + end)
  parse_auth caps username payload (pos + end + 1)
