-- ===== src/Server/Invariant.antt =====
-- The agreement holds at every point of every interleaving.
use white_toyota_tacoma.Common.{◌≡◌, refl, some, get_elem?, subst}
use white_toyota_tacoma.Server.{
  Server, Action, accept, accept_error, acquire, return_slot, wait_done, advance, stop, step, Reach,
  here, next,
}
use white_toyota_tacoma.Server.Limits.{Inv, Keeps, listen-Keeps, stop-Inv}
use white_toyota_tacoma.Server.Goroutine.{advance_task-Keeps}

step-Keeps : (s : Server) (a : Action) → Inv s → Keeps (step s a)
unfolding step
step-Keeps s (advance i) v = advance_task-Keeps s i (get_elem? s.tasks i) refl v
step-Keeps s stop v = stop-Inv s v
step-Keeps s (accept ip) v = listen-Keeps (accept ip) s.listener s refl v
step-Keeps s accept_error v = listen-Keeps accept_error s.listener s refl v
step-Keeps s acquire v = listen-Keeps acquire s.listener s refl v
step-Keeps s return_slot v = listen-Keeps return_slot s.listener s refl v
step-Keeps s wait_done v = listen-Keeps wait_done s.listener s refl v

-- Every step of every goroutine keeps the semaphore, the counts and the wait group in agreement
-- with the goroutines that run.
pub step-Inv : (s : Server) (a : Action) {u : Server} → Inv s → step s a ≡ some u → Inv u
step-Inv s a v e = subst Keeps e (step-Keeps s a v)

pub Reach-Inv : {s t : Server} → Inv s → Reach s t → Inv t
Reach-Inv v here = v
Reach-Inv v (next a r e) = step-Inv _ a (Reach-Inv v r) e
