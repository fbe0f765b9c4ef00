-- ===== src/Redis/Info.antt =====
-- `buildInfo` of internal/proto/redis/handler.go.
use white_toyota_tacoma.Common.{ℕ, ◌/◌, ◌||◌, [], ◌∷◌, ◌++◌, if◌then◌else◌, take}
use white_toyota_tacoma.Common.Bytes.{Bytes, codes, same}
use white_toyota_tacoma.Common.Decimal.{itoa, format_int}
use white_toyota_tacoma.Fingerprint.{Fp}

-- Its two reads of the clock: the uptime in seconds, and the time in microseconds.
pub record Clock : Type 0 where
  pub uptime : ℕ
  pub now_usec : ℕ

abbrev line : Bytes → Bytes → Bytes → Bytes
line key value rest = key ++ (value ++ 10 ∷ rest)

-- `fp.RedisRunID[:16]` is in range: the identifier has 40 characters.
pub server_section : Fp → Bytes → Clock → Bytes
server_section fp version t = line (codes "# Server\nredis_version:") version (
    line (codes "redis_git_sha1:00000000\nredis_git_dirty:0\nredis_build_id:")
      (take 16 fp.redis_run_id)
      (line
        (codes
          "redis_mode:standalone\nos:Linux 5.15.0-1057-aws x86_64\narch_bits:64\nmonotonic_clock:POSIX clock_gettime\nmultiplexing_api:epoll\natomicvar_api:c11-builtin\ngcc_version:11.4.0\nprocess_id:")
        (itoa fp.redis_process_id)
        (line (codes "run_id:") fp.redis_run_id (
          line (codes "tcp_port:6379\nserver_time_usec:") (itoa t.now_usec) (
            line (codes "uptime_in_seconds:") (itoa t.uptime) (
              line (codes "uptime_in_days:") (itoa (t.uptime / 86400)) (
                line
                  (codes
                    "hz:10\nconfigured_hz:10\naof_rewrites:0\nrdb_changes_since_last_save:0\nrdb_bgsave_in_progress:0\nrdb_last_save_time:")
                  (format_int fp.redis_save_epoch)
                  (codes "rdb_last_bgsave_status:ok\naof_enabled:0\n"))))))))

pub clients_section : Bytes
clients_section =
    codes
      "# Clients\nconnected_clients:1\ncluster_connections:0\nmaxclients:10000\nclient_recent_max_input_buffer:20480\nclient_recent_max_output_buffer:0\n"

pub stats_section : ℕ → ℕ → Bytes
stats_section total_cmds total_conns =
    line (codes "# Stats\ntotal_connections_received:") (itoa total_conns) (
      line (codes "total_commands_processed:") (itoa total_cmds) (
        codes
          "instantaneous_ops_per_sec:0\ntotal_net_input_bytes:0\ntotal_net_output_bytes:0\nrejected_connections:0\n"))

pub replication_section : Fp → Bytes
replication_section fp =
    line
      (codes
        "# Replication\nrole:master\nconnected_slaves:0\nmaster_failover_state:no-failover\nmaster_replid:")
      fp.redis_master_repl_id
      (codes "master_replid2:0000000000000000000000000000000000000000\nmaster_repl_offset:0\n")

pub cpu_section : Bytes
cpu_section = codes "# CPU\nused_cpu_sys:0.000000\nused_cpu_user:0.000000\n"

pub keyspace_section : Bytes
keyspace_section = codes "# Keyspace\n"

-- The section is in lower case here.
pub build_info : Fp → Bytes → Bytes → ℕ → ℕ → Clock → Bytes
unfolding same
build_info fp version section total_cmds total_conns t =
    let server = server_section fp version t in
    let stats = stats_section total_cmds total_conns in
    let replication = replication_section fp in
    if same section []
      || (same section (codes "all")
          || (same section (codes "default") || same section (codes "everything")))
    then server
      ++ (clients_section ++ (stats ++ (replication ++ (cpu_section ++ keyspace_section))))
    else if same section (codes "server")
    then server
    else if same section (codes "clients")
    then clients_section
    else if same section (codes "stats")
    then stats
    else if same section (codes "replication")
    then replication
    else if same section (codes "cpu")
    then cpu_section
    else if same section (codes "keyspace")
    then keyspace_section
    else []
