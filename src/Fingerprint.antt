-- ===== src/Fingerprint.antt =====
-- The identifiers that a deployment draws at startup, and the values that a connection draws:
-- internal/fingerprint/fingerprint.go. What `crypto/rand` returns is an argument: the bytes of
-- `rand.Read`, and the number below its bound of `rand.Int`.
pub mod Formed
pub mod Scramble
pub mod Sample
mod Tests
use white_toyota_tacoma.Common.{
  ℕ, zero, suc, ◌+◌, ◌-◌, ◌*◌, ◌/◌, ◌%◌, Bool, true, false, Option, none, some, List, [], ◌∷◌, ◌++◌,
  map, leb, ◌==◌, if◌then◌else◌, take, drop, set, get_or,
}
use white_toyota_tacoma.Common.Int.{ℤ, pos, negsuc}
use white_toyota_tacoma.Common.Bytes.{Bytes, codes}
use white_toyota_tacoma.Common.Hex.{hex}

pub record Fp : Type 0 where
  pub redis_run_id : Bytes
  pub redis_master_repl_id : Bytes
  pub redis_process_id : ℕ
  pub redis_save_epoch : ℤ
  -- Seconds, as `Unix` gives them.
  pub mysql_startup_time : ℕ
  pub mongo_cluster_id : Bytes
  pub mongo_node_id : Bytes
  pub mongo_pid : ℕ
  pub es_node_uuid : Bytes
  pub es_build_hash : Bytes
  pub es_hostname : Bytes
  pub es_pid : ℕ
  pub es_mac_address : Bytes
  pub start_time : ℕ

-- `randHex`
abbrev pub rand_hex : Bytes → Bytes
rand_hex b = hex b

-- `randIntRange`, from the number that `rand.Int` returns below `hi - lo + 1`.
unfoldable pub rand_int_range : ℕ → ℕ → ℕ → ℕ
rand_int_range lo hi n = if leb hi lo then lo else lo + n

-- The version and the variant: `(b[6] & 0x0f) | 0x40` and `(b[8] & 0x3f) | 0x80`.
abbrev pub stamped : Bytes → Bytes
stamped b = set (set b 6 (get_or b 6 0 % 16 + 0x40)) 8 (get_or b 8 0 % 64 + 0x80)

abbrev pub grouped : Bytes → Bytes
grouped b =
    hex (take 4 b)
    ++ (b'-'
        ∷ (hex (take 2 (drop 4 b))
            ++ (b'-'
                ∷ (hex (take 2 (drop 6 b))
                    ++ (b'-' ∷ (hex (take 2 (drop 8 b)) ++ (b'-' ∷ hex (take 6 (drop 10 b)))))))))

-- `randUUIDv4`, of 16 bytes.
unfoldable pub rand_uuid_v4 : Bytes → Bytes
rand_uuid_v4 b = grouped (stamped b)

abbrev pub id_chars : Bytes
id_chars = codes "ABCDEFGHIJKLMNOPQRSTUVWXYZabcdefghijklmnopqrstuvwxyz0123456789-_"

-- `randESNodeID`, of 22 numbers below 64.
unfoldable pub rand_es_node_id : List ℕ → Bytes
rand_es_node_id ns = map (λ n. get_or id_chars n 0) ns

-- `(b[0] & 0xfe) | 0x02`
abbrev pub local_unicast : ℕ → ℕ
local_unicast b = b / 4 * 4 + 2

colons : Bytes → Bytes
colons [] = []
colons (b ∷ s) = b':' ∷ (hex (b ∷ []) ++ colons s)

-- `randMAC`, of 6 bytes.
pub rand_mac : Bytes → Bytes
rand_mac [] = []
rand_mac (b ∷ s) = hex (local_unicast b ∷ []) ++ colons s

abbrev pub prefixes : List Bytes
prefixes =
    codes "node"
    ∷ codes "srv"
    ∷ codes "prod"
    ∷ codes "app"
    ∷ codes "db"
    ∷ codes "es"
    ∷ codes "cache"
    ∷ []

-- `randHostname`; the suffix has two digits.
pub rand_hostname : ℕ → ℕ → Bytes
rand_hostname n i =
    let suffix = rand_int_range 1 99 n in
    get_or prefixes (rand_int_range 0 6 i) [] ++ (suffix / 10 + 48) ∷ (suffix % 10 + 48) ∷ []

-- What `New` reads from the clock and from `crypto/rand`, in its order.
pub record Drawn : Type 0 where
  pub now : ℕ
  pub run_id : Bytes
  pub repl_id : Bytes
  pub process_id : ℕ
  pub save_offset : ℕ
  pub cluster_id : Bytes
  pub node_id : Bytes
  pub mongo_pid : ℕ
  pub es_node : List ℕ
  pub build_hash : Bytes
  pub es_pid : ℕ
  pub mac : Bytes
  pub host_number : ℕ
  pub host_prefix : ℕ

abbrev pub minus : ℕ → ℕ → ℤ
minus a b = if leb b a then pos (a - b) else negsuc (b - a - 1)

abbrev pub host_or : Bytes → Bytes → Bytes
host_or [] drawn = drawn
host_or (b ∷ host) drawn = b ∷ host

-- `New`
pub new : Bytes → Drawn → Fp
new es_hostname d = record {
  redis_run_id = rand_hex d.run_id;
  redis_master_repl_id = rand_hex d.repl_id;
  redis_process_id = rand_int_range 1000 65535 d.process_id;
  redis_save_epoch = minus d.now (rand_int_range 300 86400 d.save_offset);
  mysql_startup_time = d.now;
  mongo_cluster_id = rand_uuid_v4 d.cluster_id;
  mongo_node_id = rand_uuid_v4 d.node_id;
  mongo_pid = rand_int_range 1000 65535 d.mongo_pid;
  es_node_uuid = rand_es_node_id d.es_node;
  es_build_hash = rand_hex d.build_hash;
  es_hostname = host_or es_hostname (rand_hostname d.host_number d.host_prefix);
  es_pid = rand_int_range 1000 65535 d.es_pid;
  es_mac_address = rand_mac d.mac;
  start_time = d.now;
}

-- `PGPID` and `MySQLConnID`
abbrev pub pg_pid : ℕ → ℕ
pg_pid n = rand_int_range 2000 65534 n

abbrev pub mysql_conn_id : ℕ → ℕ
mysql_conn_id n = rand_int_range 1 16777215 n

kept : ℕ → Option Bytes → Option Bytes
kept v none = none
kept v (some b) = some (v ∷ b)

-- The loops of `MySQLScramble`, on the bytes that its reads return; `none` where they are too few.
scramble_of : ℕ → Bytes → Option Bytes
scramble_of zero stream = some []
scramble_of (suc n) [] = none
scramble_of (suc n) (v ∷ stream) =
    let again = scramble_of (suc n) stream in
    let more = kept v (scramble_of n stream) in if v == 0 then again else more

pub mysql_scramble : Bytes → Option Bytes
mysql_scramble stream = scramble_of 20 stream
