-- ===== src/Mongodb/Message/Safe.antt =====
-- A message is read without a fault, and takes the 16 bytes of its header at least.
use white_toyota_tacoma.Common.{
  ℕ, ◌+◌, ◌-◌, ◌≤◌, ◌≡◌, refl, inl, inr, ◌||◌, ◌==◌, length, drop, arith, Bool-cases, length-drop,
}
use white_toyota_tacoma.Common.Int.{ℤ, pos, ltb_ℤ, pos_part}
use white_toyota_tacoma.Common.Bytes.{Bytes}
use white_toyota_tacoma.Common.Bytes.Safe.{slice_from-eq-ok, uint32_le_some}
use white_toyota_tacoma.Common.Result.{ok}
use white_toyota_tacoma.Conn.{Conn}
use white_toyota_tacoma.Conn.Safe.{Safely, done, fails, Safely-behind, receive-Safely}
use white_toyota_tacoma.Mongodb.Message.{
  Header, max_msg_size, signed32, int32_at, header_of, read_body, with_header, read_message,
}

int32_at_some : (buf : Bytes) (i : ℕ) → i + 4 ≤ length buf → (r : ℤ) × (int32_at buf i ≡ ok r)
unfolding int32_at
int32_at_some buf i h =
    let (n, e) = uint32_le_some (drop i buf) (omega (arith, length-drop i buf)) in
    (signed32 n, rw (slice_from-eq-ok buf i (omega arith)) (rw e refl))

header_of_some : (buf : Bytes) → length buf ≡ 16 → (hdr : Header) × (header_of buf ≡ ok hdr)
unfolding header_of
header_of_some buf h =
    let (a, e) = int32_at_some buf 0 (omega arith) in
    let (b, f) = int32_at_some buf 4 (omega arith) in
    let (c, g) = int32_at_some buf 8 (omega arith) in
    let (d, k) = int32_at_some buf 12 (omega arith) in
    (
      record { message_length = a; request_id = b; response_to = c; op_code = d },
      rw (e, f, g, k) refl,
    )

read_body-Safely : (hdr : Header) (n : ℕ) (c : Conn) → Safely 0 (length c.input) (read_body hdr n c)
unfolding read_body
read_body-Safely hdr n c = elim (Bool-cases (n == 0)) [
  | inl e ↦ rw e (done (omega arith))
  | inr e ↦ rw e (Safely-behind (omega arith) (receive-Safely n _ c (λ b c' h l. done l)))
]

with_header-Safely : (hdr : Header) (c : Conn) → Safely 0 (length c.input) (with_header hdr c)
unfolding with_header
with_header-Safely hdr c =
    elim (Bool-cases
      (ltb_ℤ hdr.message_length (pos 16) || ltb_ℤ (pos max_msg_size) hdr.message_length)) [
        | inl bad ↦ rw bad (fails (λ e. cc))
        | inr good ↦ rw good (read_body-Safely hdr (pos_part hdr.message_length - 16) c)
      ]

pub read_message-Safely : (c : Conn) → Safely 16 (length c.input) (read_message c)
unfolding read_message
read_message-Safely c = receive-Safely 16 _ c λ buf c' n h.
    let (hdr, e) = header_of_some buf n in rw e (Safely-behind h (with_header-Safely hdr c'))
