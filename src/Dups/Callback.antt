-- ===== src/Dups/Callback.antt =====
-- `zb_aps_check_timer_cb` as a whole: the clocks that it runs down, and when it goes to rest.
use zboss.Base.{
  ℕ, ◌-◌, ◌<◌, ◌≤◌, ◌≡◌, refl, sym, ap, ◌∙◌, arith, Bool, true, false, ◌&&◌, leb, if◌then◌else◌,
  Bool-cases, inl, inr,
}
use zboss.Dups.{Dups, visit, reschedule, check_timer_cb, ieee_addr_table_size}
use zboss.Dups.Count.{IsCounted, count_used}
use zboss.Dups.Tick.{Ticked, loop-Ticked}

all_true : (b : Bool) (c : ℕ) → (if b && true then c - 1 else c) ≡ (if b then c - 1 else c)
all_true true c = refl
all_true false c = refl

visit-Ticked :
    (s : Dups) → IsCounted s → Ticked (record s { dups_alarm_running = false }) 0 (visit s)
unfolding visit count_used
visit-Ticked s counted =
    loop-Ticked 102 (record s { dups_alarm_running = false }) 0 0 counted refl (omega arith)
      (omega arith)

reschedule_fields :
    (s : Dups)
    → ((reschedule s).aps_dup_clock ≡ s.aps_dup_clock)
      × ((reschedule s).aps_dup_counter ≡ s.aps_dup_counter)
      × ((reschedule s).dups_alarm_running ≡ s.dups_alarm_running)
      × ((reschedule s).used ≡ s.used)
      × ((reschedule s).n_elements ≡ s.n_elements)
unfolding reschedule
reschedule_fields s = elim (Bool-cases s.dups_alarm_running) [
  | inl h ↦ rw h (refl, refl, refl, refl, refl)
  | inr h ↦ rw h (refl, refl, refl, refl, refl)
]

-- When `n_elements` is the number of entries in use, the timer's callback runs the clock of every entry
-- in use down by one, stopping at 0, leaves the other clocks and all counters, and its loop reads no
-- entry behind the table.
pub check_timer_cb-clock :
    (s : Dups) (j : ℕ)
    → IsCounted s
    → j < ieee_addr_table_size
    → ((check_timer_cb s).aps_dup_clock j
        ≡ (if s.used j then s.aps_dup_clock j - 1 else s.aps_dup_clock j))
      × ((check_timer_cb s).aps_dup_counter ≡ s.aps_dup_counter)
      × ((visit s).1 ≤ ieee_addr_table_size)
unfolding check_timer_cb
check_timer_cb-clock s j counted below =
    let t = visit-Ticked s counted in
    let (clock, counter, _, _, _) = reschedule_fields (visit s).0 in
    let whole : leb 0 j ≡ true = ground arith in
    (
      ap (λ f. f j) clock ∙ t.clocks j below ∙ rw whole (all_true (s.used j) (s.aps_dup_clock j)),
      counter ∙ t.counters,
      t.inside,
    )

-- The timer's callback leaves the alarm off only when the clock of every entry in use has come to 0.
pub check_timer_cb-off :
    (s : Dups) (j : ℕ)
    → IsCounted s
    → (check_timer_cb s).dups_alarm_running ≡ false
    → j < ieee_addr_table_size
    → s.used j ≡ true
    → (check_timer_cb s).aps_dup_clock j ≡ 0
unfolding check_timer_cb
check_timer_cb-off s j counted off below on =
    let t = visit-Ticked s counted in
    let (clock, _, running, _, _) = reschedule_fields (visit s).0 in
    ap (λ f. f j) clock ∙ (t.quiet (sym running ∙ off)).1 j below on (omega arith)

pub check_timer_cb-IsCounted : (s : Dups) → IsCounted s → IsCounted (check_timer_cb s)
unfolding check_timer_cb
check_timer_cb-IsCounted s counted =
    let t = visit-Ticked s counted in
    let (_, _, _, used, n) = reschedule_fields (visit s).0 in
    n ∙ t.same_n ∙ counted ∙ ap (λ u. count_used u ieee_addr_table_size) (sym (used ∙ t.same_used))

pub check_timer_cb-used : (s : Dups) → IsCounted s → (check_timer_cb s).used ≡ s.used
unfolding check_timer_cb
check_timer_cb-used s counted =
    let (_, _, _, used, _) = reschedule_fields (visit s).0 in
    used ∙ (visit-Ticked s counted).same_used
