-- ===== src/Mysql/Handshake/RoundTrip.antt =====
-- What a client sends is captured as it was sent; and the greeting fills the packet that it
-- announces.
use white_toyota_tacoma.Common.{
  ℕ, ◌+◌, ◌<◌, ◌≤◌, ◌≡◌, ap, ◌∙◌, subst, true, false, [], ◌∷◌, ◌++◌, ltb, leb, length, arith,
  le→ltb, lt→ltb, length-drop, length-take, length-append, append_assoc,
}
use white_toyota_tacoma.Common.Result.{ok}
use white_toyota_tacoma.Common.Bytes.{
  Bytes, le32, Lacks, slice, slice_from, uint32_le-le32, index_byte-append,
}
use white_toyota_tacoma.Common.Bytes.Behind.{slice_from-behind, slice-behind, byte_at-behind}
use white_toyota_tacoma.Conn.{Conn}
use white_toyota_tacoma.Mysql.Packet.{max_packet_size, read_packet}
use white_toyota_tacoma.Mysql.Packet.RoundTrip.{read_packet-packet}
use white_toyota_tacoma.Mysql.Handshake.{
  handshake, has_cap, cap_secure_conn, cap_conn_with_db, Login, auth_prefixed, database_up_to,
  database_at, parse_auth, parse_handshake_response, payload_len, handshake_payload,
}

auth_prefixed-append :
    (pre auth rest : Bytes)
    → auth_prefixed (pre ++ length auth ∷ (auth ++ rest)) (length pre)
      ≡ ok (auth, length pre + 1 + length auth)
unfolding auth_prefixed
auth_prefixed-append pre auth rest =
    rw (byte_at-behind pre (length auth) (auth ++ rest)) (rw (fits, cut))
  where
    fits : ltb (length (pre ++ length auth ∷ (auth ++ rest))) (length pre + 1 + length auth) ≡ false
    fits =
        le→ltb _ _
          (omega (arith, length-append pre (length auth ∷ (auth ++ rest)), length-append auth rest))

    cut :
        slice (pre ++ length auth ∷ (auth ++ rest)) (length pre + 1) (length pre + 1 + length auth)
        ≡ ok auth
    cut =
        let front = pre ++ length auth ∷ [] in
        let n : length front ≡ length pre + 1 = length-append pre (length auth ∷ []) in
        rw n at (
          rw (append_assoc pre (length auth ∷ []) (auth ++ rest)) at (slice-behind front auth rest))

database_at-append :
    (caps : ℕ) (pre db rest : Bytes)
    → has_cap caps cap_conn_with_db ≡ true
    → Lacks 0 db
    → database_at caps (pre ++ (db ++ 0 ∷ rest)) (length pre) ≡ ok db
unfolding database_at database_up_to
database_at-append caps pre db rest h l =
    rw (h, inside)
      (rw (slice_from-behind pre (db ++ 0 ∷ rest))
        (rw (index_byte-append 0 db rest l) (slice-behind pre db (0 ∷ rest))))
  where
    inside : ltb (length pre) (length (pre ++ (db ++ 0 ∷ rest))) ≡ true
    inside =
        lt→ltb _ _ (omega (arith, length-append pre (db ++ 0 ∷ rest), length-append db (0 ∷ rest)))

-- A client's response with a length byte and a database. The filler is the packet size, the
-- character set and the reserved bytes.
abbrev pub response : ℕ → Bytes → Login → Bytes
response caps filler l =
    le32 caps
    ++ (filler ++ (l.username ++ 0 ∷ length l.auth_resp ∷ (l.auth_resp ++ (l.database ++ 0 ∷ []))))

length-handshake_payload :
    (version scramble : Bytes) (conn_id : ℕ)
    → length scramble ≡ 20
    → length (handshake_payload version conn_id scramble) ≡ payload_len version
unfolding handshake_payload
length-handshake_payload version scramble conn_id h =
    omega (arith, length-append {0}, length-take {0}, length-drop {0})

-- The greeting that `sendHandshake` writes is one packet, which announces the length that its
-- payload has: a client that reads a packet reads sequence number 0 and the payload, and is left
-- with what follows. The scramble has 20 bytes and the payload at most 16 MB - 1.
pub read_packet-handshake :
    (version scramble rest : Bytes) (conn_id : ℕ) (c : Conn)
    → length scramble ≡ 20
    → payload_len version ≤ max_packet_size
    → read_packet (record c { input = handshake version conn_id scramble ++ rest })
      ≡ (ok (0, handshake_payload version conn_id scramble), record c { input = rest })
unfolding handshake
read_packet-handshake version scramble rest conn_id c h l =
    let size = length-handshake_payload version scramble conn_id h in
    rw size at (
      read_packet-packet 0 (handshake_payload version conn_id scramble) rest c
        (omega (arith, size)))

parse_auth-append :
    (caps : ℕ) (pre : Bytes) (l : Login)
    → has_cap caps cap_secure_conn ≡ true
    → has_cap caps cap_conn_with_db ≡ true
    → Lacks 0 l.database
    → parse_auth caps l.username
        (pre ++ length l.auth_resp ∷ (l.auth_resp ++ (l.database ++ 0 ∷ [])))
        (length pre)
      ≡ ok l
unfolding parse_auth
parse_auth-append caps pre l hs hd lack =
    rw (inside, hs) (rw (auth_prefixed-append pre l.auth_resp (l.database ++ 0 ∷ [])) (rw found))
  where
    payload : Bytes
    payload = pre ++ length l.auth_resp ∷ (l.auth_resp ++ (l.database ++ 0 ∷ []))

    inside :
        leb
          (length (pre ++ length l.auth_resp ∷ (l.auth_resp ++ (l.database ++ 0 ∷ []))))
          (length pre)
        ≡ false
    inside =
        ground
          (arith, length-append pre (length l.auth_resp ∷ (l.auth_resp ++ (l.database ++ 0 ∷ []))))

    found :
        database_at caps
          (pre ++ length l.auth_resp ∷ (l.auth_resp ++ (l.database ++ 0 ∷ [])))
          (length pre + 1 + length l.auth_resp)
        ≡ ok l.database
    found =
        let front = pre ++ length l.auth_resp ∷ l.auth_resp in
        let n : length front ≡ length pre + 1 + length l.auth_resp =
          omega (arith, length-append pre (length l.auth_resp ∷ l.auth_resp)) in
        rw n at (
          rw (append_assoc pre (length l.auth_resp ∷ l.auth_resp) (l.database ++ 0 ∷ [])) at
            (database_at-append caps front l.database [] hd lack))

-- A handshake response with a length byte and a database is parsed into the login that the client
-- put into it: the username and the database up to their NULs, the answer byte for byte. The
-- capabilities name both, and are below 2 ^ 32; 28 bytes stand between them and the username.
pub parse_handshake_response-response :
    (caps : ℕ) (filler : Bytes) (l : Login)
    → caps < 4294967296
    → length filler ≡ 28
    → has_cap caps cap_secure_conn ≡ true
    → has_cap caps cap_conn_with_db ≡ true
    → Lacks 0 l.username
    → Lacks 0 l.database
    → parse_handshake_response (response caps filler l) ≡ ok l
unfolding parse_handshake_response
parse_handshake_response-response caps filler l hc hf hs hd lu ld =
    rw (long, uint32_le-le32 caps (filler ++ (l.username ++ 0 ∷ R)) hc, longer)
      (rw (tail, index_byte-append 0 l.username R lu) (rw (user) rest))
  where
    R : Bytes
    R = length l.auth_resp ∷ (l.auth_resp ++ (l.database ++ 0 ∷ []))

    pre : Bytes
    pre = le32 caps ++ filler

    size : length (response caps filler l) ≡ 32 + length (l.username ++ 0 ∷ R)
    size = omega (arith, length-append filler (l.username ++ 0 ∷ R))

    long : ltb (length (response caps filler l)) 32 ≡ false
    long = le→ltb _ _ (omega (arith, size))

    longer : leb (length (response caps filler l)) 32 ≡ false
    longer = ground (arith, size, length-append l.username (0 ∷ R))

    pre_size : length pre ≡ 32
    pre_size = omega arith

    tail : slice_from (response caps filler l) 32 ≡ ok (l.username ++ 0 ∷ R)
    tail = rw pre_size at (slice_from-behind pre (l.username ++ 0 ∷ R))

    user : slice (response caps filler l) 32 (32 + length l.username) ≡ ok l.username
    user = rw pre_size at (slice-behind pre l.username (0 ∷ R))

    regrouped : (pre ++ (l.username ++ 0 ∷ [])) ++ R ≡ response caps filler l
    regrouped =
        append_assoc pre (l.username ++ 0 ∷ []) R
        ∙ ap (λ t. pre ++ t) (append_assoc l.username (0 ∷ []) R)

    rest : parse_auth caps l.username (response caps filler l) (32 + length l.username + 1) ≡ ok l
    rest =
        let front = pre ++ (l.username ++ 0 ∷ []) in
        let n : length front ≡ 32 + length l.username + 1 = omega (
          arith,
          pre_size,
          length-append pre (l.username ++ 0 ∷ []),
          length-append l.username (0 ∷ []),
        ) in
        subst (λ p. parse_auth caps l.username p (32 + length l.username + 1) ≡ ok l) regrouped
          (subst (λ i. parse_auth caps l.username (front ++ R) i ≡ ok l) n
            (parse_auth-append caps front l hs hd ld))
