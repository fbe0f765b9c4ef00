-- ===== src/Fingerprint/Sample.antt =====
-- A fingerprint for tests.
use white_toyota_tacoma.Common.{refl, replicate, arith}
use white_toyota_tacoma.Fingerprint.{Drawn}
use white_toyota_tacoma.Fingerprint.Formed.{IsDrawn}

abbrev pub drawn : Drawn
drawn = record {
  now = 1700000000;
  run_id = replicate 20 171;
  repl_id = replicate 20 7;
  process_id = 3242;
  save_offset = 99;
  cluster_id = replicate 16 255;
  node_id = replicate 16 0;
  mongo_pid = 0;
  es_node = replicate 22 63;
  build_hash = replicate 20 16;
  es_pid = 64535;
  mac = replicate 6 255;
  host_number = 6;
  host_prefix = 4;
}

pub drawn-IsDrawn : IsDrawn drawn
drawn-IsDrawn = record {
  run_id_bytes = (refl, omega arith);
  repl_id_bytes = (refl, omega arith);
  build_hash_bytes = (refl, omega arith);
  cluster_id_bytes = (refl, omega arith);
  node_id_bytes = (refl, omega arith);
  mac_bytes = (refl, omega arith);
  es_node_numbers = (refl, omega arith);
  process_id_below = omega arith;
  mongo_pid_below = omega arith;
  es_pid_below = omega arith;
}
