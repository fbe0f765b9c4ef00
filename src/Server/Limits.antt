-- ===== src/Server/Limits.antt =====
-- The semaphore and the address counts agree with the goroutines that run: what that means, and
-- that the steps of `Serve` itself keep it so.
use white_toyota_tacoma.Common.{
  ℕ, ◌+◌, ◌-◌, ◌≡◌, ◌≤◌, ◌<◌, refl, inl, inr, Bool, true, false, Option, none, some, List, [], ltb,
  leb, ◌==◌, if◌then◌else◌, length, length-zero, sum_of, arith, Bool-cases, ltb→lt, lt→ltb,
}
use white_toyota_tacoma.Common.Int.{ℤ}
use white_toyota_tacoma.Common.Bytes.{Bytes, same, same_iff}
use white_toyota_tacoma.Server.{
  count_of, max_per_ip, acquire_ip, Phase, handling, closed, slot_freed, ip_freed, Task, Listener,
  accepting, slot_taken, refused, waiting, returned, Server, new, Action, accept, accept_error,
  acquire, return_slot, wait_done, on_accept, on_acquire, receive, then_set, listen,
}
use white_toyota_tacoma.Server.Counts.{count_of-set_count, NoZero, set_count-NoZero}

-- What a goroutine holds in each phase.
abbrev pub slot_held : Phase → ℕ
slot_held handling = 1
slot_held closed = 1
slot_held slot_freed = 0
slot_held ip_freed = 0

abbrev pub ip_held : Phase → ℕ
ip_held handling = 1
ip_held closed = 1
ip_held slot_freed = 1
ip_held ip_freed = 0

abbrev pub listener_slot : Listener → ℕ
listener_slot accepting = 0
listener_slot (slot_taken ip) = 1
listener_slot refused = 1
listener_slot waiting = 0
listener_slot returned = 0

abbrev pub slots : List Task → ℕ
slots = sum_of λ t. slot_held t.phase

abbrev pub holders : Bytes → List Task → ℕ
holders ip = sum_of λ t. if same t.ip ip then ip_held t.phase else 0

pub record Inv (s : Server) : Type 0 where
  pub sem_counts : s.sem ≡ slots s.tasks + listener_slot s.listener
  pub sem_bounded : s.sem ≤ s.max_conns
  pub ip_counts_holders : (ip : Bytes) → count_of ip s.ip_counts ≡ holders ip s.tasks
  pub ip_bounded : (ip : Bytes) → holders ip s.tasks ≤ max_per_ip
  pub no_zero : NoZero s.ip_counts
  pub wg_counts : s.wg ≡ length s.tasks
  pub ended : s.listener ≡ returned → s.tasks ≡ []

pub new-Inv : (max_conns : ℤ) → Inv (new max_conns)
unfolding new count_of
new-Inv max_conns = record {
  sem_counts = refl;
  sem_bounded = ground arith;
  ip_counts_holders = λ ip. refl;
  ip_bounded = λ ip. omega arith;
  no_zero = tt;
  wg_counts = refl;
  ended = λ e. refl;
}

on_accept-Inv : (ip : Bytes) (s : Server) → s.listener ≡ accepting → Inv s → Inv (on_accept ip s)
unfolding on_accept
on_accept-Inv ip s e v = elim (Bool-cases (ltb s.sem s.max_conns)) [
  | inl room ↦ rw room (record {
    sem_counts = ground (arith, v.sem_counts);
    sem_bounded = omega (arith, ltb→lt s.sem s.max_conns room);
    ip_counts_holders = v.ip_counts_holders;
    ip_bounded = v.ip_bounded;
    no_zero = v.no_zero;
    wg_counts = v.wg_counts;
    ended = λ r. cc;
  })
  | inr full ↦ rw full v
]

on_acquire-Inv :
    (ip : Bytes) (s : Server) → s.listener ≡ slot_taken ip → Inv s → Inv (on_acquire ip s)
unfolding on_acquire acquire_ip
on_acquire-Inv ip s e v = elim (Bool-cases (leb max_per_ip (count_of ip s.ip_counts))) [
  | inl full ↦
      rw (full, on_acquire)
        (record {
          sem_counts = ground (arith, v.sem_counts);
          sem_bounded = v.sem_bounded;
          ip_counts_holders = v.ip_counts_holders;
          ip_bounded = v.ip_bounded;
          no_zero = v.no_zero;
          wg_counts = v.wg_counts;
          ended = λ r. cc;
        })
  | inr room ↦
      rw (room, on_acquire)
        (record {
          sem_counts = ground (arith, v.sem_counts);
          sem_bounded = v.sem_bounded;
          ip_counts_holders = λ j. ground (
            arith,
            count_of-set_count ip j (count_of ip s.ip_counts + 1) s.ip_counts,
            v.ip_counts_holders j,
            v.ip_counts_holders ip,
            same_iff ip j,
          );
          ip_bounded = λ j. ground (arith, v.ip_bounded j, v.ip_counts_holders ip, same_iff ip j);
          no_zero =
              set_count-NoZero ip (count_of ip s.ip_counts + 1) s.ip_counts (omega arith) v.no_zero;
          wg_counts = omega (arith, v.wg_counts);
          ended = λ r. cc;
        })
]

-- `<-s.sem` does not block where an item is in the channel.
pub receive-some : (s : Server) → 0 < s.sem → receive s ≡ some (record s { sem = s.sem - 1 })
unfolding receive
receive-some s h = rw (lt→ltb 0 s.sem h)

abbrev pub Keeps : Option Server → Type 0
Keeps none = Unit
Keeps (some u) = Inv u

return_slot-Keeps :
    (s : Server)
    → s.listener ≡ refused
    → Inv s
    → Keeps (then_set (receive s) λ t. record t { listener = accepting })
return_slot-Keeps s e v = rw (receive-some s (ground (arith, v.sem_counts))) (record {
  sem_counts = ground (arith, v.sem_counts);
  sem_bounded = omega (arith, v.sem_bounded);
  ip_counts_holders = v.ip_counts_holders;
  ip_bounded = v.ip_bounded;
  no_zero = v.no_zero;
  wg_counts = v.wg_counts;
  ended = λ r. cc;
})

wait_done-Keeps :
    (s : Server)
    → s.listener ≡ waiting
    → Inv s
    → Keeps (if s.wg == 0 then some (record s { listener = returned }) else none)
wait_done-Keeps s e v = elim (Bool-cases (s.wg == 0)) [
  | inl done ↦ rw done (record {
    sem_counts = ground (arith, v.sem_counts);
    sem_bounded = v.sem_bounded;
    ip_counts_holders = v.ip_counts_holders;
    ip_bounded = v.ip_bounded;
    no_zero = v.no_zero;
    wg_counts = v.wg_counts;
    ended = λ r. length-zero s.tasks (ground (arith, v.wg_counts));
  })
  | inr busy ↦ rw busy tt
]

accept_error-Inv :
    (s : Server) (b : Bool)
    → s.listener ≡ accepting
    → Inv s
    → Inv (if b then record s { listener = waiting } else s)
accept_error-Inv s false e v = v
accept_error-Inv s true e v = record {
  sem_counts = ground (arith, v.sem_counts);
  sem_bounded = v.sem_bounded;
  ip_counts_holders = v.ip_counts_holders;
  ip_bounded = v.ip_bounded;
  no_zero = v.no_zero;
  wg_counts = v.wg_counts;
  ended = λ r. cc;
}

pub listen-Keeps :
    (a : Action) (l : Listener) (s : Server) → s.listener ≡ l → Inv s → Keeps (listen a l s)
unfolding listen
listen-Keeps (accept ip) accepting s e v = on_accept-Inv ip s e v
listen-Keeps accept_error accepting s e v = accept_error-Inv s s.stopped e v
listen-Keeps acquire (slot_taken ip) s e v = on_acquire-Inv ip s e v
listen-Keeps return_slot refused s e v = return_slot-Keeps s e v
listen-Keeps wait_done waiting s e v = wait_done-Keeps s e v
listen-Keeps _ _ s e v = tt

pub stop-Inv : (s : Server) → Inv s → Inv (record s { stopped = true })
stop-Inv s v = record {
  sem_counts = v.sem_counts;
  sem_bounded = v.sem_bounded;
  ip_counts_holders = v.ip_counts_holders;
  ip_bounded = v.ip_bounded;
  no_zero = v.no_zero;
  wg_counts = v.wg_counts;
  ended = v.ended;
}
