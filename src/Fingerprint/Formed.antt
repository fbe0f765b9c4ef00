-- ===== src/Fingerprint/Formed.antt =====
-- The identifiers that `New` makes have the forms of the real ones.
use white_toyota_tacoma.Common.{
  zero, suc, List, map, drop, All-take, ℕ, ◌*◌, ◌%◌, ◌≤◌, ◌<◌, ◌≡◌, ◌≢◌, ◌⊎◌, refl, ◌∙◌, [], ◌∷◌,
  ◌++◌, take, get_or, length, length-map, All, arith,
}
use white_toyota_tacoma.Common.Bytes.{Bytes, IsByte}
use white_toyota_tacoma.Common.Hex.{hex, length-hex, IsLowerHex, hex-IsLowerHex}
use white_toyota_tacoma.Fingerprint.{
  Fp, rand_hex, rand_int_range, rand_uuid_v4, stamped, id_chars, rand_es_node_id, local_unicast,
  colons, rand_mac, rand_hostname, Drawn, host_or, new,
}

-- What `crypto/rand` promises: as many bytes as the buffer has, and numbers below their bound.
abbrev pub AreBytes : ℕ → Bytes → Type 0
AreBytes n b = (length b ≡ n) × All IsByte b

pub record IsDrawn (d : Drawn) : Type 0 where
  pub run_id_bytes : AreBytes 20 d.run_id
  pub repl_id_bytes : AreBytes 20 d.repl_id
  pub build_hash_bytes : AreBytes 20 d.build_hash
  pub cluster_id_bytes : AreBytes 16 d.cluster_id
  pub node_id_bytes : AreBytes 16 d.node_id
  pub mac_bytes : AreBytes 6 d.mac
  pub es_node_numbers : (length d.es_node ≡ 22) × All (λ n. n < 64) d.es_node
  pub process_id_below : d.process_id < 64536
  pub mongo_pid_below : d.mongo_pid < 64536
  pub es_pid_below : d.es_pid < 64536

-- 40 lower-case hexadecimal digits.
abbrev pub IsHash : Bytes → Type 0
IsHash s = (length s ≡ 40) × All IsLowerHex s

-- 36 characters, of which those between the dashes are hexadecimal digits, with the version 4, and
-- the variant 8, 9, a or b.
abbrev pub IsUuid : Bytes → Type 0
IsUuid s =
    (length s ≡ 36)
    × (get_or s 8 0 ≡ b'-')
    × (get_or s 13 0 ≡ b'-')
    × (get_or s 18 0 ≡ b'-')
    × (get_or s 23 0 ≡ b'-')
    × (get_or s 14 0 ≡ b'4')
    × (((56 ≤ get_or s 19 0) × (get_or s 19 0 ≤ 57))
        ⊎ ((97 ≤ get_or s 19 0) × (get_or s 19 0 ≤ 98)))
    × All IsLowerHex (take 8 s)
    × All IsLowerHex (take 4 (drop 9 s))
    × All IsLowerHex (take 4 (drop 14 s))
    × All IsLowerHex (take 4 (drop 19 s))
    × All IsLowerHex (drop 24 s)

abbrev pub IsPid : ℕ → Type 0
IsPid n = (1000 ≤ n) × (n ≤ 65535)

-- Six bytes in hexadecimal with colons between them, and a first one of a local unicast address.
abbrev pub IsLocalMac : Bytes → Type 0
IsLocalMac s =
    (a b c d e f : ℕ) × All IsByte (a ∷ b ∷ c ∷ d ∷ e ∷ f ∷ [])
    × (a % 4 ≡ 2)
    × (s
        ≡ hex (a ∷ [])
          ++ (b':'
              ∷ (hex (b ∷ [])
                  ++ (b':'
                      ∷ (hex (c ∷ [])
                          ++ (b':'
                              ∷ (hex (d ∷ [])
                                  ++ (b':' ∷ (hex (e ∷ []) ++ (b':' ∷ hex (f ∷ [])))))))))))

-- 22 characters of base64 for URLs.
abbrev pub IsIdChar : ℕ → Type 0
IsIdChar c =
    ((b'A' ≤ c) × (c ≤ b'Z'))
    ⊎ (((b'a' ≤ c) × (c ≤ b'z')) ⊎ (((b'0' ≤ c) × (c ≤ b'9')) ⊎ ((c ≡ b'-') ⊎ (c ≡ b'_'))))

abbrev pub IsNodeId : Bytes → Type 0
IsNodeId s = (length s ≡ 22) × All IsIdChar s

abbrev pub IsFormed : Fp → Type 0
IsFormed fp =
    IsHash fp.redis_run_id
    × IsHash fp.redis_master_repl_id
    × IsHash fp.es_build_hash
    × IsUuid fp.mongo_cluster_id
    × IsUuid fp.mongo_node_id
    × IsPid fp.redis_process_id
    × IsPid fp.mongo_pid
    × IsPid fp.es_pid
    × IsNodeId fp.es_node_uuid
    × IsLocalMac fp.es_mac_address
    × (fp.es_hostname ≢ [])

rand_hex-IsHash : (b : Bytes) → AreBytes 20 b → IsHash (rand_hex b)
rand_hex-IsHash b h = (omega (arith, length-hex b, h.0), hex-IsLowerHex b h.1)

All-drop : (i : ℕ) (s : Bytes) → All IsByte s → All IsByte (drop i s)
All-drop zero s h = h
All-drop (suc i) [] h = tt
All-drop (suc i) (b ∷ s) h = All-drop i s h.1

get_or-All : (P : ℕ → Type 0) (s : Bytes) (n : ℕ) → All P s → n < length s → P (get_or s n 0)
get_or-All P [] n h l = absurd (omega arith)
get_or-All P (b ∷ s) zero h l = h.0
get_or-All P (b ∷ s) (suc n) h l = get_or-All P s n h.1 (omega arith)

id_chars-IsIdChar : All IsIdChar id_chars
id_chars-IsIdChar = omega arith

rand_es_node_id-IsNodeId :
    (ns : List ℕ) → (length ns ≡ 22) × All (λ n. n < 64) ns → IsNodeId (rand_es_node_id ns)
unfolding rand_es_node_id
rand_es_node_id-IsNodeId ns h = (length-map ns _ ∙ h.0, chars ns h.1)
  where
    chars : (ms : List ℕ) → All (λ n. n < 64) ms → All IsIdChar (map (λ n. get_or id_chars n 0) ms)
    chars [] k = tt
    chars (m ∷ ms) k = (get_or-All IsIdChar id_chars m id_chars-IsIdChar k.0, chars ms k.1)

rand_uuid_v4-IsUuid : (b : Bytes) → length b ≡ 16 → All IsByte b → IsUuid (rand_uuid_v4 b)
unfolding rand_uuid_v4 hex
rand_uuid_v4-IsUuid
      (b0 ∷ b1 ∷ b2 ∷ b3 ∷ b4 ∷ b5 ∷ b6 ∷ b7 ∷ b8 ∷ b9 ∷ b10 ∷ b11 ∷ b12 ∷ b13 ∷ b14 ∷ b15 ∷ []) e
      h =
    let b =
      stamped (
        b0 ∷ b1 ∷ b2 ∷ b3 ∷ b4 ∷ b5 ∷ b6 ∷ b7 ∷ b8 ∷ b9 ∷ b10 ∷ b11 ∷ b12 ∷ b13 ∷ b14 ∷ b15 ∷ []) in
    let part = λ (i n : ℕ).
      hex-IsLowerHex (take n (drop i b))
        (All-take IsByte n (drop i b) (All-drop i b (omega arith))) in
    (
      refl,
      refl,
      refl,
      refl,
      refl,
      ground (arith, h.1.1.1.1.1.1.0),
      ground (arith, h.1.1.1.1.1.1.1.1.0),
      part 0 4,
      part 4 2,
      part 6 2,
      part 8 2,
      part 10 6,
    )
rand_uuid_v4-IsUuid [] e h = absurd (omega arith)
rand_uuid_v4-IsUuid (b0 ∷ []) e h = absurd (omega arith)
rand_uuid_v4-IsUuid (b0 ∷ b1 ∷ []) e h = absurd (omega arith)
rand_uuid_v4-IsUuid (b0 ∷ b1 ∷ b2 ∷ []) e h = absurd (omega arith)
rand_uuid_v4-IsUuid (b0 ∷ b1 ∷ b2 ∷ b3 ∷ []) e h = absurd (omega arith)
rand_uuid_v4-IsUuid (b0 ∷ b1 ∷ b2 ∷ b3 ∷ b4 ∷ []) e h = absurd (omega arith)
rand_uuid_v4-IsUuid (b0 ∷ b1 ∷ b2 ∷ b3 ∷ b4 ∷ b5 ∷ []) e h = absurd (omega arith)
rand_uuid_v4-IsUuid (b0 ∷ b1 ∷ b2 ∷ b3 ∷ b4 ∷ b5 ∷ b6 ∷ []) e h = absurd (omega arith)
rand_uuid_v4-IsUuid (b0 ∷ b1 ∷ b2 ∷ b3 ∷ b4 ∷ b5 ∷ b6 ∷ b7 ∷ []) e h = absurd (omega arith)
rand_uuid_v4-IsUuid (b0 ∷ b1 ∷ b2 ∷ b3 ∷ b4 ∷ b5 ∷ b6 ∷ b7 ∷ b8 ∷ []) e h = absurd (omega arith)
rand_uuid_v4-IsUuid (b0 ∷ b1 ∷ b2 ∷ b3 ∷ b4 ∷ b5 ∷ b6 ∷ b7 ∷ b8 ∷ b9 ∷ []) e h =
    absurd (omega arith)
rand_uuid_v4-IsUuid (b0 ∷ b1 ∷ b2 ∷ b3 ∷ b4 ∷ b5 ∷ b6 ∷ b7 ∷ b8 ∷ b9 ∷ b10 ∷ []) e h =
    absurd (omega arith)
rand_uuid_v4-IsUuid (b0 ∷ b1 ∷ b2 ∷ b3 ∷ b4 ∷ b5 ∷ b6 ∷ b7 ∷ b8 ∷ b9 ∷ b10 ∷ b11 ∷ []) e h =
    absurd (omega arith)
rand_uuid_v4-IsUuid (b0 ∷ b1 ∷ b2 ∷ b3 ∷ b4 ∷ b5 ∷ b6 ∷ b7 ∷ b8 ∷ b9 ∷ b10 ∷ b11 ∷ b12 ∷ []) e h =
    absurd (omega arith)
rand_uuid_v4-IsUuid (b0 ∷ b1 ∷ b2 ∷ b3 ∷ b4 ∷ b5 ∷ b6 ∷ b7 ∷ b8 ∷ b9 ∷ b10 ∷ b11 ∷ b12 ∷ b13 ∷ []) e
      h =
    absurd (omega arith)
rand_uuid_v4-IsUuid
      (b0 ∷ b1 ∷ b2 ∷ b3 ∷ b4 ∷ b5 ∷ b6 ∷ b7 ∷ b8 ∷ b9 ∷ b10 ∷ b11 ∷ b12 ∷ b13 ∷ b14 ∷ []) e h =
    absurd (omega arith)
rand_uuid_v4-IsUuid
      (b0 ∷ b1 ∷ b2 ∷ b3 ∷ b4 ∷ b5 ∷ b6 ∷ b7 ∷ b8 ∷ b9 ∷ b10 ∷ b11 ∷ b12 ∷ b13 ∷ b14 ∷ b15 ∷ b16
        ∷ s)
      e h =
    absurd (omega arith)

rand_int_range-IsPid : (n : ℕ) → n < 64536 → IsPid (rand_int_range 1000 65535 n)
unfolding rand_int_range
rand_int_range-IsPid n h = (omega arith, omega arith)

rand_mac-IsLocalMac : (b : Bytes) → length b ≡ 6 → All IsByte b → IsLocalMac (rand_mac b)
unfolding rand_mac colons hex
rand_mac-IsLocalMac (a ∷ b ∷ c ∷ d ∷ e ∷ f ∷ []) l h =
    (local_unicast a, b, c, d, e, f, omega arith, omega arith, refl)
rand_mac-IsLocalMac [] l h = absurd (omega arith)
rand_mac-IsLocalMac (a ∷ []) l h = absurd (omega arith)
rand_mac-IsLocalMac (a ∷ b ∷ []) l h = absurd (omega arith)
rand_mac-IsLocalMac (a ∷ b ∷ c ∷ []) l h = absurd (omega arith)
rand_mac-IsLocalMac (a ∷ b ∷ c ∷ d ∷ []) l h = absurd (omega arith)
rand_mac-IsLocalMac (a ∷ b ∷ c ∷ d ∷ e ∷ []) l h = absurd (omega arith)
rand_mac-IsLocalMac (a ∷ b ∷ c ∷ d ∷ e ∷ f ∷ g ∷ s) l h = absurd (omega arith)

append-ne-nil : (s t : Bytes) (b : ℕ) → s ++ b ∷ t ≢ []
append-ne-nil [] t b e = cc
append-ne-nil (c ∷ s) t b e = cc

host_or-ne-nil : (host drawn : Bytes) → drawn ≢ [] → host_or host drawn ≢ []
host_or-ne-nil [] drawn h e = h e
host_or-ne-nil (b ∷ host) drawn h e = cc

-- Whatever the randomness, the identifiers have their forms: the Redis and build hashes are 40
-- lower-case hexadecimal digits, the MongoDB ones are UUIDs of version 4, the process numbers are
-- from 1000 to 65535, the Elasticsearch node has 22 characters of base64 for URLs, its MAC address
-- is six bytes in hexadecimal, with colons, and local and unicast, and the hostname is not empty.
pub new-IsFormed : (host : Bytes) (d : Drawn) → IsDrawn d → IsFormed (new host d)
unfolding new rand_es_node_id rand_hostname
new-IsFormed host d r = (
  rand_hex-IsHash d.run_id r.run_id_bytes,
  rand_hex-IsHash d.repl_id r.repl_id_bytes,
  rand_hex-IsHash d.build_hash r.build_hash_bytes,
  rand_uuid_v4-IsUuid d.cluster_id r.cluster_id_bytes.0 r.cluster_id_bytes.1,
  rand_uuid_v4-IsUuid d.node_id r.node_id_bytes.0 r.node_id_bytes.1,
  rand_int_range-IsPid d.process_id r.process_id_below,
  rand_int_range-IsPid d.mongo_pid r.mongo_pid_below,
  rand_int_range-IsPid d.es_pid r.es_pid_below,
  rand_es_node_id-IsNodeId d.es_node r.es_node_numbers,
  rand_mac-IsLocalMac d.mac r.mac_bytes.0 r.mac_bytes.1,
  host_or-ne-nil host _ (append-ne-nil _ _ _),
)

pub length-es_build_hash :
    (host : Bytes) (d : Drawn) → length (new host d).es_build_hash ≡ 2 * length d.build_hash
unfolding new
length-es_build_hash host d = length-hex d.build_hash
