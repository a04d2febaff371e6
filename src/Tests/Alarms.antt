-- ===== src/Tests/Alarms.antt =====
-- A scheduler with one pending alarm and two free entries.
use zboss.Base.{
  ℕ, Ptr, false, ◌+◌, ◌*◌, ◌≡◌, refl, arith, true, [], ◌∷◌, update, ◌==◌, filter, map, not,
}
use zboss.Time.{wrap_sub, time_add, time_ge}
use zboss.Alarm.{
  Alarms, ok, not_found, schedule_alarm, schedule_alarm_cancel, cancels, alarm_all_cb,
}
use zboss.Alarm.Queue.{Holds}
use zboss.Alarm.Place.{place}
use zboss.Alarm.Schedule.{schedule_alarm-Holds}
use zboss.Alarm.Order.{Ascending, schedule_alarm-Ascending}
use zboss.Alarm.Due.{due_loop}
use zboss.Alarm.Due.Quiet.{is_due, pushed}
use zboss.Alarm.Due.Filter.{due_loop-filter}
use zboss.Alarm.Cancel.{Cancelled, schedule_alarm_cancel-Cancelled}

-- Entry 1 waits until 10, entries 2 and 3 are free, and the clock is about to wrap.
abbrev pending : Alarms
pending = record {
  func = λ p. 700;
  param = λ p. 4;
  run_time = update (λ p. 0) 1 10;
  tm_queue = record { head = 1; next = update (λ p. 0) 2 3; prev = update (λ p. 0) 1 1 };
  tm_freelist = 2;
  clock = record { timer_stop = 10; timer = 65530; started = true };
}

pending-Holds : Holds pending (1 ∷ []) (2 ∷ 3 ∷ [])
pending-Holds = record {
  queued = record {
    heads = refl;
    nexts = (refl, tt);
    prevs = (refl, tt);
    distinct = (refl, tt);
    non_null = (omega arith, tt);
  };
  free_head = refl;
  free_next = (refl, (refl, tt));
  free_non_null = (omega arith, (omega arith, tt));
  apart = (refl, (refl, (refl, tt)));
}

-- The same scheduler with the free list used up.
abbrev exhausted : Alarms
exhausted = record pending { tm_freelist = 0 }

exhausted-Holds : Holds exhausted (1 ∷ []) []
exhausted-Holds = record {
  queued = pending-Holds.queued;
  free_head = refl;
  free_next = tt;
  free_non_null = tt;
  apart = (refl, tt);
}

schedule_alarm-Holds_example :
    let t = time_add 65530 5 in
    let (ret, s') = schedule_alarm pending 800 1 5 in
    (ret ≡ ok)
    × Holds s' (place s'.run_time t 2 (1 ∷ [])) (3 ∷ [])
    × (s'.func 2 ≡ 800)
    × (s'.param 2 ≡ 1)
    × (s'.run_time 2 ≡ t)
unfolding time_ge time_add
schedule_alarm-Holds_example =
    schedule_alarm-Holds pending 2 (1 ∷ []) (3 ∷ []) 800 1 5 pending-Holds (omega arith) refl

schedule_alarm-Ascending_example :
    let t = time_add 65530 5 in
    let (ret, s') = schedule_alarm pending 800 1 5 in
    (ret ≡ ok)
    × Holds s' (place s'.run_time t 2 (1 ∷ [])) (3 ∷ [])
    × Ascending s'.run_time 65530 (place s'.run_time t 2 (1 ∷ []))
unfolding wrap_sub time_add
schedule_alarm-Ascending_example =
    schedule_alarm-Ascending pending 65530 2 (1 ∷ []) (3 ∷ []) 800 1 5 pending-Holds (omega arith)
      (omega arith) (omega arith, omega arith) ((omega arith, omega arith), tt) (tt, tt)

schedule_alarm_cancel-Cancelled_example :
    Cancelled
      (cancels pending 700 254)
      (254 == alarm_all_cb)
      []
      (1 ∷ [])
      (2 ∷ 3 ∷ [])
      not_found
      (schedule_alarm_cancel pending 700 254)
schedule_alarm_cancel-Cancelled_example =
    schedule_alarm_cancel-Cancelled pending 700 254 (1 ∷ []) (2 ∷ 3 ∷ []) pending-Holds
      (omega arith)

-- The state before the scheduler is initialized, all zero.
abbrev zeroed : Alarms
zeroed = record {
  func = λ p. 0;
  param = λ p. 0;
  run_time = λ p. 0;
  tm_queue = record { head = 0; next = λ p. 0; prev = λ p. 0 };
  tm_freelist = 0;
  clock = record { timer_stop = 0; timer = 0; started = false };
}

zeroed-Holds : Holds zeroed [] []
zeroed-Holds = record {
  queued = record { heads = refl; nexts = tt; prevs = tt; distinct = tt; non_null = tt };
  free_head = refl;
  free_next = tt;
  free_non_null = tt;
  apart = tt;
}

-- Entries of 12 octets from the address 100 on.
abbrev tm_buffer : ℕ → Ptr
tm_buffer i = 100 + 12 * i

due_loop-filter_example :
    let due = filter (is_due pending.run_time 12) (1 ∷ []) in
    let r = due_loop (λ w. false) (λ func param w. (w + 1, [])) 2 12 pending 0 in
    (r.ended ≡ true)
    × (r.calls ≡ map (λ p. (pending.func p, pending.param p)) due)
    × Holds r.alarms
        (filter (λ p. not (is_due pending.run_time 12 p)) (1 ∷ []))
        (pushed due (2 ∷ 3 ∷ []))
unfolding wrap_sub
due_loop-filter_example =
    due_loop-filter (λ w. false) (λ func param w. (w + 1, [])) 65530 2 12 pending 0 (1 ∷ [])
      (2 ∷ 3 ∷ []) (λ w. refl) (λ func param w. refl) pending-Holds (omega arith) (omega arith)
      (omega arith, omega arith) ((omega arith, omega arith), tt) (tt, tt)
