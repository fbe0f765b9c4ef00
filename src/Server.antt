-- ===== src/Server.antt =====
-- The bounded TCP listener: internal/server/server.go. `Serve` runs in one goroutine and each
-- accepted connection in another; what one of them does between two points at which the others
-- may run is one step.
pub mod Counts
pub mod Limits
pub mod Goroutine
pub mod Invariant
pub mod Serve
mod Tests
use white_toyota_tacoma.Common.{
  ℕ, zero, suc, ◌+◌, ◌-◌, ◌≡◌, ◌<◌, Bool, true, false, Option, none, some, List, [], ◌∷◌, ◌++◌, ltb,
  leb, ◌==◌, if◌then◌else◌, length, set, erase_idx, get_elem?,
}
use white_toyota_tacoma.Common.Int.{ℤ, pos, negsuc, leb_ℤ}
use white_toyota_tacoma.Common.Bytes.{Bytes, same}

-- `ipCounts`, with the keys that are present.
abbrev pub Counts : Type 0
Counts = List (Bytes × ℕ)

-- A missing key reads as 0.
unfoldable pub count_of : Bytes → Counts → ℕ
count_of ip [] = 0
count_of ip ((k, n) ∷ m) = if same k ip then n else count_of ip m

unfoldable pub set_count : Bytes → ℕ → Counts → Counts
set_count ip n [] = (ip, n) ∷ []
set_count ip n ((k, m) ∷ rest) = if same k ip then (k, n) ∷ rest else (k, m) ∷ set_count ip n rest

unfoldable pub delete : Bytes → Counts → Counts
delete ip [] = []
delete ip ((k, n) ∷ rest) = if same k ip then delete ip rest else (k, n) ∷ delete ip rest

abbrev pub max_per_ip : ℕ
max_per_ip = 20

-- `acquireIP`, under the mutex. `none` is `false`, with nothing changed.
unfoldable pub acquire_ip : Bytes → Counts → Option Counts
acquire_ip ip m =
    if leb max_per_ip (count_of ip m) then none else some (set_count ip (count_of ip m + 1) m)

-- `releaseIP`, under the mutex. The counts are never below 1 where it is called.
unfoldable pub release_ip : Bytes → Counts → Counts
release_ip ip m = if leb (count_of ip m) 1 then delete ip m else set_count ip (count_of ip m - 1) m

-- Where a connection's goroutine stands: it runs the handler, it has closed the connection, it
-- has given back the semaphore slot, or it has released its address and has yet to call
-- `wg.Done`.
pub data Phase : Type 0 where
  handling closed slot_freed ip_freed : Phase

pub record Task : Type 0 where
  pub ip : Bytes
  pub phase : Phase

-- Where `Serve` stands.
pub data Listener : Type 0 where
  -- At `ln.Accept`.
  accepting : Listener
  -- It has the slot for a connection from this address.
  slot_taken : Bytes → Listener
  -- Refused by `acquireIP`, with the connection closed and the slot yet to be given back.
  refused : Listener
  -- In `wg.Wait`.
  waiting : Listener
  returned : Listener

pub record Server : Type 0 where
  pub max_conns : ℕ
  -- The items in the channel `sem`.
  pub sem : ℕ
  pub total_conns : ℕ
  pub ip_counts : Counts
  -- The counter of the wait group.
  pub wg : ℕ
  -- `ctx` is cancelled, or `done` is closed.
  pub stopped : Bool
  pub listener : Listener
  -- The goroutines that run, in no order that matters.
  pub tasks : List Task

-- `New`
unfoldable pub new : ℤ → Server
new max_conns = record {
  max_conns = elim max_conns [ pos zero ↦ 500 | pos (suc n) ↦ suc n | negsuc n ↦ 500 ];
  sem = 0;
  total_conns = 0;
  ip_counts = [];
  wg = 0;
  stopped = false;
  listener = accepting;
  tasks = [];
}

-- What may happen next. The index of `advance` picks a goroutine.
pub data Action : Type 0 where
  -- `ln.Accept` returns a connection from this address.
  accept : Bytes → Action
  accept_error : Action
  acquire : Action
  return_slot : Action
  wait_done : Action
  advance : ℕ → Action
  -- `ctx` is cancelled, or `Stop` is called.
  stop : Action

-- The non-blocking send on `sem`; at capacity the connection is closed.
on_accept : Bytes → Server → Server
on_accept ip s =
    if ltb s.sem s.max_conns then record s { sem = s.sem + 1; listener = slot_taken ip } else s

-- `acquireIP`, and then the goroutine is started or the connection closed.
on_acquire : Bytes → Server → Server
on_acquire ip s = elim (acquire_ip ip s.ip_counts) [
  | none ↦ record s { listener = refused }
  | some m ↦ record s {
    total_conns = s.total_conns + 1;
    ip_counts = m;
    wg = s.wg + 1;
    listener = accepting;
    tasks = record { ip = ip; phase = handling } ∷ s.tasks;
  }
]

-- `<-s.sem`, which blocks on an empty channel.
pub receive : Server → Option Server
receive s = if ltb 0 s.sem then some (record s { sem = s.sem - 1 }) else none

abbrev then_set : Option Server → (Server → Server) → Option Server
then_set none f = none
then_set (some s) f = some (f s)

-- The deferred calls of a connection's goroutine, one at a time.
pub on_advance : ℕ → Bytes → Phase → Server → Option Server
on_advance i ip handling s =
    some (record s { tasks = set s.tasks i (record { ip = ip; phase = closed }) })
on_advance i ip closed s =
    then_set (receive s)
      λ t. record t { tasks = set s.tasks i (record { ip = ip; phase = slot_freed }) }
on_advance i ip slot_freed s = some (record s {
  ip_counts = release_ip ip s.ip_counts;
  tasks = set s.tasks i (record { ip = ip; phase = ip_freed });
})
on_advance i ip ip_freed s = some (record s { wg = s.wg - 1; tasks = erase_idx s.tasks i })

pub advance_task : ℕ → Option Task → Server → Option Server
advance_task i none s = none
advance_task i (some t) s = on_advance i t.ip t.phase s

-- The listener's own step, where it stands at one that fits the action.
pub listen : Action → Listener → Server → Option Server
listen (accept ip) accepting s = some (on_accept ip s)
listen accept_error accepting s = some (if s.stopped then record s { listener = waiting } else s)
listen acquire (slot_taken ip) s = some (on_acquire ip s)
listen return_slot refused s = then_set (receive s) λ t. record t { listener = accepting }
listen wait_done waiting s = if s.wg == 0 then some (record s { listener = returned }) else none
listen _ _ s = none

-- One step; `none` where the action cannot happen, or blocks.
pub step : Server → Action → Option Server
step s (advance i) = advance_task i (get_elem? s.tasks i) s
step s stop = some (record s { stopped = true })
step s (accept ip) = listen (accept ip) s.listener s
step s accept_error = listen accept_error s.listener s
step s acquire = listen acquire s.listener s
step s return_slot = listen return_slot s.listener s
step s wait_done = listen wait_done s.listener s

-- Every interleaving of the goroutines.
pub data Reach (s : Server) : Server → Type 0 where
  here : Reach s s
  next : {t u : Server} (a : Action) → Reach s t → step t a ≡ some u → Reach s u
