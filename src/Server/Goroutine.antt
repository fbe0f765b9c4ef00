-- ===== src/Server/Goroutine.antt =====
-- The deferred calls of a connection's goroutine keep the agreement, each of them.
use white_toyota_tacoma.Common.{
  ℕ, ◌+◌, ◌-◌, ◌≡◌, ◌<◌, ◌≢◌, refl, sym, ◌∙◌, Option, none, some, if◌then◌else◌, length-set,
  length-erase_idx, set, erase_idx, get_elem?, sum_of-set, sum_of-erase_idx, arith,
}
use white_toyota_tacoma.Common.Bytes.{Bytes, same, same_iff}
use white_toyota_tacoma.Server.{
  count_of, release_ip, Phase, handling, closed, slot_freed, ip_freed, Task, returned, Server,
  on_advance, advance_task,
}
use white_toyota_tacoma.Server.Counts.{count_of-release_ip, release_ip-NoZero}
use white_toyota_tacoma.Server.Limits.{slot_held, ip_held, slots, holders, Inv, receive-some, Keeps}

-- The steps of the goroutine at index `i`.
module _ (s : Server) (i : ℕ) (t : Task) (at : get_elem? s.tasks i ≡ some t) (v : Inv s) where
  slots_moved :
      (p : Phase)
      → slots (set s.tasks i (record { ip = t.ip; phase = p })) + slot_held t.phase
        ≡ slots s.tasks + slot_held p
  slots_moved p =
      sum_of-set (λ u. slot_held u.phase) s.tasks i t (record { ip = t.ip; phase = p }) at

  holders_moved :
      (p : Phase) (j : Bytes)
      → holders j (set s.tasks i (record { ip = t.ip; phase = p }))
          + (if same t.ip j then ip_held t.phase else 0)
        ≡ holders j s.tasks + (if same t.ip j then ip_held p else 0)
  holders_moved p j =
      sum_of-set (λ u. if same u.ip j then ip_held u.phase else 0) s.tasks i t
        (record { ip = t.ip; phase = p }) at

  not_returned : s.listener ≢ returned
  not_returned r = cc (v.ended r)

  close-Inv :
      t.phase ≡ handling
      → Inv (record s { tasks = set s.tasks i (record { ip = t.ip; phase = closed }) })
  close-Inv e = record {
    sem_counts = ground (arith, v.sem_counts, slots_moved closed);
    sem_bounded = v.sem_bounded;
    ip_counts_holders = λ j. ground (arith, v.ip_counts_holders j, holders_moved closed j);
    ip_bounded = λ j. ground (arith, v.ip_bounded j, holders_moved closed j);
    no_zero = v.no_zero;
    wg_counts = v.wg_counts ∙ sym (length-set s.tasks i (record { ip = t.ip; phase = closed }));
    ended = λ r. absurd (not_returned r);
  }

  pub holds_slot : t.phase ≡ closed → 0 < s.sem
  holds_slot e = ground (arith, v.sem_counts, slots_moved slot_freed)

  free_slot-Inv :
      t.phase ≡ closed
      → Inv (record s {
        sem = s.sem - 1;
        tasks = set s.tasks i (record { ip = t.ip; phase = slot_freed });
      })
  free_slot-Inv e = record {
    sem_counts = ground (arith, v.sem_counts, slots_moved slot_freed);
    sem_bounded = omega (arith, v.sem_bounded);
    ip_counts_holders = λ j. ground (arith, v.ip_counts_holders j, holders_moved slot_freed j);
    ip_bounded = λ j. ground (arith, v.ip_bounded j, holders_moved slot_freed j);
    no_zero = v.no_zero;
    wg_counts = v.wg_counts ∙ sym (length-set s.tasks i (record { ip = t.ip; phase = slot_freed }));
    ended = λ r. absurd (not_returned r);
  }

  holds_ip : t.phase ≡ slot_freed → 0 < count_of t.ip s.ip_counts
  holds_ip e =
      ground (arith, v.ip_counts_holders t.ip, holders_moved ip_freed t.ip, same_iff t.ip t.ip)

  free_ip-Inv :
      t.phase ≡ slot_freed
      → Inv (record s {
        ip_counts = release_ip t.ip s.ip_counts;
        tasks = set s.tasks i (record { ip = t.ip; phase = ip_freed });
      })
  free_ip-Inv e = record {
    sem_counts = ground (arith, v.sem_counts, slots_moved ip_freed);
    sem_bounded = v.sem_bounded;
    ip_counts_holders = λ j.
        count_of-release_ip t.ip j s.ip_counts (holds_ip e)
        ∙ ground (
          arith,
          v.ip_counts_holders j,
          v.ip_counts_holders t.ip,
          same_iff t.ip j,
          holders_moved ip_freed j,
        );
    ip_bounded = λ j. ground (arith, v.ip_bounded j, holders_moved ip_freed j);
    no_zero = release_ip-NoZero t.ip s.ip_counts v.no_zero;
    wg_counts = v.wg_counts ∙ sym (length-set s.tasks i (record { ip = t.ip; phase = ip_freed }));
    ended = λ r. absurd (not_returned r);
  }

  end-Inv : t.phase ≡ ip_freed → Inv (record s { wg = s.wg - 1; tasks = erase_idx s.tasks i })
  end-Inv e = record {
    sem_counts =
        ground (arith, v.sem_counts, sum_of-erase_idx (λ u. slot_held u.phase) s.tasks i t at);
    sem_bounded = v.sem_bounded;
    ip_counts_holders = λ j. ground (arith, v.ip_counts_holders j, erased j);
    ip_bounded = λ j. ground (arith, v.ip_bounded j, erased j);
    no_zero = v.no_zero;
    wg_counts = omega (arith, v.wg_counts, length-erase_idx s.tasks i t at);
    ended = λ r. absurd (not_returned r);
  }
    where
      erased :
          (j : Bytes)
          → holders j (erase_idx s.tasks i) + (if same t.ip j then ip_held t.phase else 0)
            ≡ holders j s.tasks
      erased j = sum_of-erase_idx (λ u. if same u.ip j then ip_held u.phase else 0) s.tasks i t at

  pub on_advance-Keeps : (p : Phase) → t.phase ≡ p → Keeps (on_advance i t.ip p s)
  unfolding on_advance
  on_advance-Keeps handling e = close-Inv e
  on_advance-Keeps closed e = rw (receive-some s (holds_slot e)) (free_slot-Inv e)
  on_advance-Keeps slot_freed e = free_ip-Inv e
  on_advance-Keeps ip_freed e = end-Inv e

pub advance_task-Keeps :
    (s : Server) (i : ℕ) (o : Option Task)
    → get_elem? s.tasks i ≡ o
    → Inv s
    → Keeps (advance_task i o s)
unfolding advance_task
advance_task-Keeps s i none e v = tt
advance_task-Keeps s i (some t) e v = on_advance-Keeps s i t e v t.phase refl
