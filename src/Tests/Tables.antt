-- ===== src/Tests/Tables.antt =====
-- Concrete address tables, callback rings and duplicate checks.
use zboss.Base.{
  ℕ, ◌+◌, ◌-◌, ◌≤◌, ◌≡◌, refl, arith, Bool, true, false, ltb, ◌==◌, ◌&&◌, List, [], ◌∷◌,
  if◌then◌else◌, some, length, Bool-cases, inl, inr,
}
use zboss.Ring.{Ring}
use zboss.Ring.Fifo.{Holds}
use zboss.Shorts.{Shorts, add_short_sorted}
use zboss.Shorts.Order.{Sorted}
use zboss.Shorts.Search.{Found}
use zboss.Shorts.Add.{short_search-add_short_sorted}
use zboss.Callbacks.{CbEnt, run_callbacks}
use zboss.Callbacks.Loop.{run_list, Agrees, run_callbacks-Agrees}
use zboss.Callbacks.Ends.{run_callbacks-ended}
use zboss.Dups.{
  Dups, check_dups, check_timer_cb, visit, reschedule, tick_loop, tick_entry, ieee_addr_table_size,
}
use zboss.Dups.Count.{IsCounted, count_used}
use zboss.Dups.Callback.{check_timer_cb-clock}
use zboss.Dups.Window.{ticks, is_dup-remember}

-- The addresses 10 and 30 of the entries 4 and 2, with the entry 7 about to get 20.
abbrev shorts : Shorts
shorts = record {
  addr = λ ref. if ref == 4 then 10 else if ref == 7 then 20 else 30;
  short_sorted = λ i. if i == 0 then 4 else 2;
  n_sorted_elements = 2;
}

shorts-Sorted : Sorted shorts
shorts-Sorted i j ord inside = ground arith

short_search-add_short_sorted_example :
    Sorted (add_short_sorted shorts 7 20) × Found (add_short_sorted shorts 7 20) 20
short_search-add_short_sorted_example = short_search-add_short_sorted shorts 7 20 shorts-Sorted refl

-- Two pending callbacks in a ring of three places.
abbrev first_cb : CbEnt
first_cb = record { func = 700; param = 1 }

abbrev second_cb : CbEnt
second_cb = record { func = 800; param = 0 }

abbrev cb_q : Ring CbEnt
cb_q = record {
  ring_buf = second_cb ∷ second_cb ∷ first_cb ∷ [];
  read_i = 2;
  write_i = 1;
  written = 2;
}

cb_q-Holds : Holds cb_q (first_cb ∷ second_cb ∷ [])
cb_q-Holds = record {
  valid = record {
    room = omega arith;
    small = omega arith;
    read_in = omega arith;
    count_in = omega arith;
    behind = refl;
  };
  count = refl;
  entries = (refl, (refl, tt));
}

-- The callback 700 schedules 800 as long as the state allows another callback.
abbrev call : CbEnt → ℕ → ℕ × List CbEnt
call ent w = if ltb 0 w && ent.func == 700 then (w - 1, second_cb ∷ []) else (w, [])

abbrev no_interrupt : ℕ → Bool
no_interrupt w = false

run_callbacks-Agrees_example :
    Agrees
      (run_callbacks no_interrupt call 9 cb_q 2)
      (run_list no_interrupt call 3 9 (first_cb ∷ second_cb ∷ []) 2)
run_callbacks-Agrees_example =
    run_callbacks-Agrees no_interrupt call 9 cb_q (first_cb ∷ second_cb ∷ []) 2 cb_q-Holds

call_budget : (e : CbEnt) (w : ℕ) → length (call e w).1 + (call e w).0 ≤ w
call_budget e w = elim (Bool-cases (ltb 0 w && e.func == 700)) [
  | inl h ↦ rw h (ground arith)
  | inr h ↦ rw h (omega arith)
]

run_callbacks-ended_example : (run_callbacks no_interrupt call 9 cb_q 2).ended ≡ true
run_callbacks-ended_example =
    run_callbacks-ended no_interrupt call (λ w. w) call_budget 9 cb_q (first_cb ∷ second_cb ∷ []) 2
      cb_q-Holds (omega arith)

-- One entry in use, at the reference 5, which has just been heard of.
abbrev heard : Dups
heard = record {
  used = λ i. i == 5;
  aps_dup_counter = λ i. 17;
  aps_dup_clock = λ i. 1;
  n_elements = 1;
  dups_alarm_running = true;
  scheduled = 1;
}

heard-IsCounted : IsCounted heard
unfolding count_used
heard-IsCounted = refl

check_timer_cb-clock_example :
    ((check_timer_cb heard).aps_dup_clock 5 ≡ (if heard.used 5 then 1 - 1 else 1))
    × ((check_timer_cb heard).aps_dup_counter ≡ heard.aps_dup_counter)
    × ((visit heard).1 ≤ ieee_addr_table_size)
check_timer_cb-clock_example = check_timer_cb-clock heard 5 heard-IsCounted (omega arith)

heard_off : (check_timer_cb heard).dups_alarm_running ≡ false
unfolding check_timer_cb visit reschedule tick_loop tick_entry
heard_off = refl

is_dup-remember_example :
    (check_dups (ticks 2 (check_dups heard (some 5) 18).1) (some 5) 18).0 ≡ (ltb 2 3 && 18 == 18)
is_dup-remember_example = is_dup-remember heard 5 18 18 2 heard-IsCounted (omega arith) refl
