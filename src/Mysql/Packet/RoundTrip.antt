-- ===== src/Mysql/Packet/RoundTrip.antt =====
-- A packet is read back as it was written, with what follows it left unread; and every packet that
-- is read takes four bytes at least.
use white_toyota_tacoma.Common.{
  ℕ, suc, ◌+◌, ◌*◌, ◌/◌, ◌%◌, ◌≤◌, ◌≡◌, refl, inl, inr, false, [], ◌∷◌, ◌++◌, ltb, ◌==◌, length,
  arith, Bool-cases, le→ltb,
}
use white_toyota_tacoma.Common.Bytes.{Bytes, read_full, read_full-append}
use white_toyota_tacoma.Common.Result.{ok}
use white_toyota_tacoma.Conn.{Conn, pure, receive}
use white_toyota_tacoma.Conn.Progress.{Takes, took, failed, bind-Takes, Takes-behind, receive-Takes}
use white_toyota_tacoma.Mysql.Packet.{max_packet_size, read_payload, header_of, read_packet, packet}

read_header :
    (a b c d : ℕ) (rest : Bytes)
    → read_full 4 (a ∷ b ∷ c ∷ d ∷ rest) ≡ ok (a ∷ b ∷ c ∷ d ∷ [], rest)
read_header a b c d rest = read_full-append (a ∷ b ∷ c ∷ d ∷ []) rest

not_empty : (n : ℕ) → (suc n == 0) ≡ false
not_empty n = ground arith

read_payload-append :
    (seq : ℕ) (payload rest : Bytes) (c : Conn)
    → length payload ≤ max_packet_size
    → read_payload (length payload) seq (record c { input = payload ++ rest })
      ≡ (ok (seq, payload), record c { input = rest })
unfolding read_payload
read_payload-append seq [] rest c h = refl
read_payload-append seq (b ∷ payload) rest c h =
    rw (le→ltb max_packet_size (length (b ∷ payload)) h, not_empty (length payload))
      (rw (read_full-append (b ∷ payload) rest))

length24-sum :
    (n : ℕ) → n ≤ max_packet_size → n % 256 + n / 256 % 256 * 256 + n / 65536 % 256 * 65536 ≡ n
length24-sum n h = omega arith

-- `readPacket` reads back one packet of at most 16 MB - 1.
pub read_packet-packet :
    (seq : ℕ) (payload rest : Bytes) (c : Conn)
    → length payload ≤ max_packet_size
    → read_packet (record c { input = packet seq payload ++ rest })
      ≡ (ok (seq, payload), record c { input = rest })
unfolding read_packet
read_packet-packet seq payload rest c h = rw (read_header _ _ _ _ (payload ++ rest)) (
    unfold header_of in
    rw (length24-sum (length payload) h) (read_payload-append seq payload rest c h))

read_payload-Takes : (size seq : ℕ) (c : Conn) → Takes 0 (length c.input) (read_payload size seq c)
unfolding read_payload
read_payload-Takes size seq c = elim (Bool-cases (ltb max_packet_size size)) [
  | inl e ↦ rw e failed
  | inr e ↦ rw e (elim (Bool-cases (size == 0)) [
    | inl z ↦ rw z (took (omega arith))
    | inr p ↦ rw p (
        bind-Takes 0 (length c.input) (receive size) (λ payload. pure (seq, payload)) c
          (Takes-behind (omega arith) (receive-Takes size c)) (λ payload c' h. took h))
  ])
]

header_of-Takes : (hdr : Bytes) (c : Conn) → Takes 0 (length c.input) (header_of hdr c)
unfolding header_of
header_of-Takes (a ∷ b ∷ d ∷ seq ∷ s) c = read_payload-Takes (a + b * 256 + d * 65536) seq c
header_of-Takes (a ∷ b ∷ d ∷ []) c = failed
header_of-Takes (a ∷ b ∷ []) c = failed
header_of-Takes (a ∷ []) c = failed
header_of-Takes [] c = failed

pub read_packet-Takes : (c : Conn) → Takes 4 (length c.input) (read_packet c)
unfolding read_packet
read_packet-Takes c =
    bind-Takes 4 (length c.input) (receive 4) header_of c (receive-Takes 4 c)
      λ hdr c' h. Takes-behind h (header_of-Takes hdr c')
