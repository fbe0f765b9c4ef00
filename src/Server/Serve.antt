-- ===== src/Server/Serve.antt =====
-- What `Serve` promises: its limits at every moment, no goroutine that blocks, and an end.
use white_toyota_tacoma.Common.{
  ℕ, zero, suc, ◌+◌, ◌≡◌, ◌≤◌, ◌<◌, ◌≢◌, refl, ap, sym, ◌∙◌, Option, none, some, List, [], ◌∷◌,
  get_elem?, sum_of, subst, arith,
}
use white_toyota_tacoma.Common.Int.{ℤ}
use white_toyota_tacoma.Common.Bytes.{Bytes, same_iff}
use white_toyota_tacoma.Server.{
  Counts, count_of, max_per_ip, Phase, handling, closed, slot_freed, ip_freed, Task, Listener,
  accepting, refused, waiting, returned, Server, new, Action, accept, accept_error, acquire,
  return_slot, wait_done, advance, stop, on_accept, on_acquire, receive, on_advance, advance_task,
  listen, step, Reach, here, next,
}
use white_toyota_tacoma.Server.Limits.{Inv, new-Inv, receive-some, holders, slots, listener_slot}
use white_toyota_tacoma.Server.Counts.{NoZero}
use white_toyota_tacoma.Server.Goroutine.{holds_slot}
use white_toyota_tacoma.Server.Invariant.{Reach-Inv, step-Inv}

abbrev SameCap : Server → Option Server → Type 0
SameCap s none = Unit
SameCap s (some u) = u.max_conns ≡ s.max_conns

on_advance-SameCap : (i : ℕ) (ip : Bytes) (p : Phase) (s : Server) → SameCap s (on_advance i ip p s)
unfolding on_advance receive
on_advance-SameCap i ip handling s = refl
on_advance-SameCap i ip closed s = ground arith
on_advance-SameCap i ip slot_freed s = refl
on_advance-SameCap i ip ip_freed s = refl

listen-SameCap : (a : Action) (l : Listener) (s : Server) → SameCap s (listen a l s)
unfolding listen on_accept on_acquire receive
listen-SameCap (accept ip) accepting s = ground arith
listen-SameCap _ _ s = ground arith

advance_task-SameCap : (i : ℕ) (o : Option Task) (s : Server) → SameCap s (advance_task i o s)
unfolding advance_task
advance_task-SameCap i none s = tt
advance_task-SameCap i (some t) s = on_advance-SameCap i t.ip t.phase s

step-SameCap : (a : Action) (s : Server) → SameCap s (step s a)
unfolding step
step-SameCap (advance i) s = advance_task-SameCap i (get_elem? s.tasks i) s
step-SameCap stop s = refl
step-SameCap (accept ip) s = listen-SameCap (accept ip) s.listener s
step-SameCap accept_error s = listen-SameCap accept_error s.listener s
step-SameCap acquire s = listen-SameCap acquire s.listener s
step-SameCap return_slot s = listen-SameCap return_slot s.listener s
step-SameCap wait_done s = listen-SameCap wait_done s.listener s

Reach-max_conns : {s t : Server} → Reach s t → t.max_conns ≡ s.max_conns
Reach-max_conns here = refl
Reach-max_conns (next {t} a r e) = subst (SameCap t) e (step-SameCap a t) ∙ Reach-max_conns r

-- At every moment, at most `max_conns` connections are open or hold a slot, and at most 20 of
-- them, or of those that have yet to release it, are from one address. A `max_conns` of 0 or
-- below stands for 500.
pub Reach-limits :
    (m : ℤ) (t : Server)
    → Reach (new m) t
    → (slots t.tasks + listener_slot t.listener ≤ (new m).max_conns)
      × ((ip : Bytes) → holders ip t.tasks ≤ max_per_ip)
Reach-limits m t r =
    let v = Reach-Inv (new-Inv m) r in
    (omega (arith, v.sem_counts, v.sem_bounded, Reach-max_conns r), v.ip_bounded)

no-counts : (m : Counts) → NoZero m → ((ip : Bytes) → count_of ip m ≡ 0) → m ≡ []
unfolding count_of
no-counts [] z h = refl
no-counts ((k, n) ∷ m) z h = ground (arith, h k, same_iff k k)

-- When `Serve` has returned, no goroutine is left, the semaphore is empty, and `ipCounts` holds no
-- key: nothing leaks, however the goroutines were interleaved.
pub Reach-returned :
    (m : ℤ) (t : Server)
    → Reach (new m) t
    → t.listener ≡ returned
    → (t.tasks ≡ []) × (t.sem ≡ 0) × (t.ip_counts ≡ []) × (t.wg ≡ 0)
Reach-returned m t r e =
    let v = Reach-Inv (new-Inv m) r in
    let none_left = v.ended e in
    (
      none_left,
      ground (arith, v.sem_counts, none_left),
      no-counts t.ip_counts v.no_zero (λ ip. rw none_left at (v.ip_counts_holders ip)),
      ground (arith, v.wg_counts, none_left),
    )

-- No goroutine ever blocks in its deferred calls, and the listener never blocks when it gives a
-- slot back.
pub Reach-no_block :
    (m : ℤ) (t : Server) (i : ℕ) (task : Task)
    → Reach (new m) t
    → (get_elem? t.tasks i ≡ some task → step t (advance i) ≢ none)
      × (t.listener ≡ refused → step t return_slot ≢ none)
unfolding step advance_task on_advance listen
Reach-no_block m t i task r =
    let v = Reach-Inv (new-Inv m) r in
    (
      (λ at. unblocked v task at task.phase refl),
      λ e stuck. ground (arith, receive-some t (ground (arith, v.sem_counts))),
    )
  where
    unblocked :
        (v : Inv t) (task : Task) (at : get_elem? t.tasks i ≡ some task) (p : Phase)
        → task.phase ≡ p
        → advance_task i (get_elem? t.tasks i) t ≢ none
    unblocked v task at handling e = rw at (rw e (λ x. cc))
    unblocked v task at closed e =
        rw at (rw (e, receive-some t (holds_slot t i task at v e)) (λ x. cc))
    unblocked v task at slot_freed e = rw at (rw e (λ x. cc))
    unblocked v task at ip_freed e = rw at (rw e (λ x. cc))

-- How many steps a goroutine has yet to make.
abbrev work : Phase → ℕ
work handling = 4
work closed = 3
work slot_freed = 2
work ip_freed = 1

abbrev work_left : List Task → ℕ
work_left = sum_of λ t. work t.phase

abbrev Advances : Server → Option Server → Type 0
Advances s none = ⊥
Advances s (some u) = (u.listener ≡ s.listener) × (work_left u.tasks < work_left s.tasks)

advance_head :
    (s : Server) (task : Task) (rest : List Task)
    → s.tasks ≡ task ∷ rest
    → Inv s
    → (p : Phase) → task.phase ≡ p
    → Advances s (on_advance 0 task.ip p s)
unfolding on_advance
advance_head s task rest e v handling q = ground arith
advance_head s task rest e v closed q =
    rw (receive-some s (holds_slot s 0 task (ground arith) v q)) (ground arith)
advance_head s task rest e v slot_freed q = ground arith
advance_head s task rest e v ip_freed q = ground arith

step_head :
    (s : Server) (task : Task) (rest : List Task)
    → s.tasks ≡ task ∷ rest
    → Inv s
    → Advances s (step s (advance 0))
unfolding step advance_task
step_head s task rest e v =
    subst (λ o. Advances s (advance_task 0 o s)) (ap (λ ts. get_elem? ts 0) (sym e))
      (advance_head s task rest e v task.phase refl)

Advances-some :
    (s : Server) (o : Option Server)
    → Advances s o
    → (u : Server) × (o ≡ some u) × Advances s (some u)
Advances-some s none h = absurd h
Advances-some s (some u) h = (u, refl, h)

Reach-cons : {s t u : Server} (a : Action) → step s a ≡ some t → Reach t u → Reach s u
Reach-cons a e here = next a here e
Reach-cons a e (next b r f) = next b (Reach-cons a e r) f

finish :
    (s : Server)
    → s.listener ≡ waiting
    → s.wg ≡ 0
    → step s wait_done ≡ some (record s { listener = returned })
unfolding step listen
finish s e w = ground arith

drain :
    (n : ℕ) (s : Server) (ts : List Task)
    → s.tasks ≡ ts
    → Inv s
    → s.listener ≡ waiting
    → work_left ts < n
    → (u : Server) × Reach s u × (u.listener ≡ returned)
drain zero s ts e v w h = absurd (omega arith)
drain (suc n) s [] e v w h = (
  record s { listener = returned },
  next wait_done here (finish s w (ground (arith, v.wg_counts))),
  refl,
)
drain (suc n) s (t ∷ ts) e v w h =
    let (u, st, adv) = Advances-some s (step s (advance 0)) (step_head s t ts e v) in
    let (z, r, end) =
      drain n u u.tasks refl (step-Inv s (advance 0) v st) (adv.0 ∙ w) (ground arith) in
    (z, Reach-cons (advance 0) st r, end)

-- Once `Serve` waits, the goroutines can always run to their ends, one after the other, and then
-- it returns: no state that can be reached is a deadlock of the shutdown.
pub Reach-shutdown :
    (m : ℤ) (t : Server)
    → Reach (new m) t
    → t.listener ≡ waiting
    → (u : Server) × Reach t u × (u.listener ≡ returned)
Reach-shutdown m t r w =
    drain (suc (work_left t.tasks)) t t.tasks refl (Reach-Inv (new-Inv m) r) w (omega arith)
