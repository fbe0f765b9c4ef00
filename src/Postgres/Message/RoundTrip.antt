-- ===== src/Postgres/Message/RoundTrip.antt =====
-- A message is read back as it was written, with what follows it left unread; and every message
-- that is read takes five bytes at least.
use white_toyota_tacoma.Common.{
  ℕ, ◌+◌, ◌-◌, ◌≤◌, ◌≡◌, refl, ap, ◌∙◌, Option, none, some, if◌then◌else◌, inl, inr, false, ◌||◌,
  [], ◌∷◌, ◌++◌, ltb, ◌==◌, length, arith, Bool-cases, take-length-append,
}
use white_toyota_tacoma.Common.Bytes.{
  Bytes, be32, read_full, read_full-append, uint32_be, uint32_be-be32, Lacks, index_byte-append,
  index_byte, shift,
}
use white_toyota_tacoma.Common.Result.{ok, err, eof}
use white_toyota_tacoma.Conn.{Conn, pure, lift, receive}
use white_toyota_tacoma.Conn.Progress.{
  Takes, took, failed, bind-Takes, Takes-behind, receive-Takes, lift-Takes, send-Takes,
}
use white_toyota_tacoma.Postgres.Message.{
  max_msg_len, up_to, null_term_string, read_payload, with_header, read_message, type_password,
  password_of, read_password_message, message, send_msg, send_ready_for_query,
  send_empty_query_response, send_error_response, error_body,
}

read_payload-append :
    (t : ℕ) (payload rest : Bytes) (c : Conn)
    → length payload ≤ max_msg_len
    → read_payload t (4 + length payload) (record c { input = payload ++ rest })
      ≡ (ok (t, payload), record c { input = rest })
unfolding read_payload
read_payload-append t [] rest c h = refl
read_payload-append t (b ∷ payload) rest c h =
    rw fits (rw minus (rw not_empty (rw (read_full-append (b ∷ payload) rest))))
  where
    fits :
        (ltb (4 + length (b ∷ payload)) 4 || ltb max_msg_len (4 + length (b ∷ payload) - 4)) ≡ false
    fits = ground arith

    minus : 4 + length (b ∷ payload) - 4 ≡ length (b ∷ payload)
    minus = omega arith

    not_empty : (length (b ∷ payload) == 0) ≡ false
    not_empty = ground arith

-- `readMessage` reads back one message of at most 1 MB as it was written.
pub read_message-message :
    (t : ℕ) (payload rest : Bytes) (c : Conn)
    → length payload ≤ max_msg_len
    → read_message (record c { input = message t payload ++ rest })
      ≡ (ok (t, payload), record c { input = rest })
unfolding read_message with_header
read_message-message t payload rest c h =
    rw (read_full-append (t ∷ be32 (4 + length payload)) (payload ++ rest)) (
      rw (uint32_be-be32 (4 + length payload) [] (omega arith))
        (read_payload-append t payload rest c h))

pub read_message_nil :
    (c : Conn) → read_message (record c { input = [] }) ≡ (err eof, record c { input = [] })
unfolding read_message read_full
read_message_nil c = refl

-- What stands before the first NUL.
abbrev pub before_nul : Bytes → Bytes
before_nul [] = []
before_nul (b ∷ s) = let rest = before_nul s in if b == 0 then [] else b ∷ rest

up_to-shift : (b : ℕ) (s : Bytes) (o : Option ℕ) → up_to (b ∷ s) (shift o) ≡ b ∷ up_to s o
unfolding up_to
up_to-shift b s none = refl
up_to-shift b s (some i) = refl

pub null_term_string-before_nul : (s : Bytes) → null_term_string s ≡ before_nul s
unfolding null_term_string up_to index_byte
null_term_string-before_nul [] = refl
null_term_string-before_nul (b ∷ s) = elim (Bool-cases (b == 0)) [
  | inl e ↦ rw e refl
  | inr e ↦ rw e (up_to-shift b s (index_byte s 0) ∙ ap (◌∷◌ b) (null_term_string-before_nul s))
]

pub null_term_string-append : (s rest : Bytes) → Lacks 0 s → null_term_string (s ++ 0 ∷ rest) ≡ s
unfolding null_term_string up_to
null_term_string-append s rest h =
    rw (index_byte-append 0 s rest h) (take-length-append s (0 ∷ rest))

pub read_password_message-message :
    (hash rest : Bytes) (c : Conn)
    → Lacks 0 hash
    → length (hash ++ 0 ∷ []) ≤ max_msg_len
    → read_password_message (record c { input = message type_password (hash ++ 0 ∷ []) ++ rest })
      ≡ (ok hash, record c { input = rest })
unfolding read_password_message password_of
read_password_message-message hash rest c l h =
    rw (read_message-message type_password (hash ++ 0 ∷ []) rest c h)
      (rw (null_term_string-append hash [] l))

read_payload-Takes : (t len : ℕ) (c : Conn) → Takes 0 (length c.input) (read_payload t len c)
unfolding read_payload
read_payload-Takes t len c = elim (Bool-cases (ltb len 4 || ltb max_msg_len (len - 4))) [
  | inl e ↦ rw e failed
  | inr e ↦ rw e (elim (Bool-cases (len - 4 == 0)) [
    | inl z ↦ rw z (took (omega arith))
    | inr p ↦ rw p (
        bind-Takes 0 (length c.input) (receive (len - 4)) (λ payload. pure (t, payload)) c
          (Takes-behind (omega arith) (receive-Takes (len - 4) c)) (λ payload c' h. took h))
  ])
]

with_header-Takes : (hdr : Bytes) (c : Conn) → Takes 0 (length c.input) (with_header hdr c)
unfolding with_header
with_header-Takes [] c = failed
with_header-Takes (t ∷ rest) c =
    bind-Takes 0 (length c.input) (lift (uint32_be rest)) (read_payload t) c
      (lift-Takes 0 _ (uint32_be rest) c (omega arith))
      λ len c' h. Takes-behind h (read_payload-Takes t len c')

pub read_message-Takes : (c : Conn) → Takes 5 (length c.input) (read_message c)
unfolding read_message
read_message-Takes c =
    bind-Takes 5 (length c.input) (receive 5) with_header c (receive-Takes 5 c)
      λ hdr c' h. Takes-behind h (with_header-Takes hdr c')

pub send_msg-Takes :
    (k n t : ℕ) (body : Bytes) (c : Conn) → length c.input + k ≤ n → Takes k n (send_msg t body c)
unfolding send_msg
send_msg-Takes k n t body c h = send-Takes k n _ c h

pub send_ready_for_query-Takes :
    (k n t : ℕ) (c : Conn) → length c.input + k ≤ n → Takes k n (send_ready_for_query t c)
unfolding send_ready_for_query
send_ready_for_query-Takes k n t c h = send_msg-Takes k n 90 (t ∷ []) c h

pub send_empty_query_response-Takes :
    (k n : ℕ) (c : Conn) → length c.input + k ≤ n → Takes k n (send_empty_query_response c)
unfolding send_empty_query_response
send_empty_query_response-Takes k n c h = send_msg-Takes k n 73 [] c h

pub send_error_response-Takes :
    (k n : ℕ) (code msg : Bytes) (c : Conn)
    → length c.input + k ≤ n
    → Takes k n (send_error_response code msg c)
unfolding send_error_response
send_error_response-Takes k n code msg c h = send_msg-Takes k n 69 (error_body code msg) c h
