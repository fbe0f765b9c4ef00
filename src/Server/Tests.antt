-- ===== src/Server/Tests.antt =====
-- The server on small runs.
use white_toyota_tacoma.Common.{
  ◌+◌, ◌≤◌, ◌≡◌, ◌≢◌, refl, true, false, none, some, [], ◌∷◌, get_elem?,
}
use white_toyota_tacoma.Common.Int.{pos}
use white_toyota_tacoma.Common.Bytes.{Bytes, codes, same}
use white_toyota_tacoma.Server.{
  count_of, set_count, max_per_ip, acquire_ip, release_ip, delete, handling, Task, accepting,
  refused, waiting, returned, Server, new, accept, accept_error, acquire, return_slot, wait_done,
  advance, stop, on_accept, on_acquire, receive, on_advance, advance_task, listen, step, Reach,
  here, next,
}
use white_toyota_tacoma.Server.Limits.{holders, slots, listener_slot}
use white_toyota_tacoma.Server.Serve.{Reach-limits, Reach-returned, Reach-no_block, Reach-shutdown}

abbrev peer : Bytes
peer = codes "10.0.0.9"

abbrev task : Task
task = record { ip = peer; phase = handling }

-- One connection runs.
abbrev serving : Server
serving = record {
  max_conns = 2;
  sem = 1;
  total_conns = 1;
  ip_counts = (peer, 1) ∷ [];
  wg = 1;
  stopped = false;
  listener = accepting;
  tasks = task ∷ [];
}

abbrev shutting : Server
shutting = record serving { stopped = true; listener = waiting }

abbrev gone : Server
gone = record {
  max_conns = 2;
  sem = 0;
  total_conns = 1;
  ip_counts = [];
  wg = 0;
  stopped = true;
  listener = returned;
  tasks = [];
}

to_serving : Reach (new (pos 2)) serving
unfolding step listen on_accept on_acquire acquire_ip new count_of set_count
to_serving = next acquire (next (accept peer) here refl) refl

to_shutting : Reach (new (pos 2)) shutting
unfolding step listen
to_shutting = next accept_error (next stop to_serving refl) refl

to_gone : Reach (new (pos 2)) gone
unfolding step listen advance_task on_advance receive release_ip count_of same delete
to_gone =
    next wait_done
      (next (advance 0)
        (next (advance 0) (next (advance 0) (next (advance 0) to_shutting refl) refl) refl) refl)
      refl

Reach-limits_example :
    (slots serving.tasks + listener_slot serving.listener ≤ (new (pos 2)).max_conns)
    × ((ip : Bytes) → holders ip serving.tasks ≤ max_per_ip)
Reach-limits_example = Reach-limits (pos 2) serving to_serving

Reach-returned_example : (gone.tasks ≡ []) × (gone.sem ≡ 0) × (gone.ip_counts ≡ []) × (gone.wg ≡ 0)
Reach-returned_example = Reach-returned (pos 2) gone to_gone refl

Reach-no_block_example :
    (get_elem? serving.tasks 0 ≡ some task → step serving (advance 0) ≢ none)
    × (serving.listener ≡ refused → step serving return_slot ≢ none)
Reach-no_block_example = Reach-no_block (pos 2) serving 0 task to_serving

Reach-shutdown_example : (u : Server) × Reach shutting u × (u.listener ≡ returned)
Reach-shutdown_example = Reach-shutdown (pos 2) shutting to_shutting refl
