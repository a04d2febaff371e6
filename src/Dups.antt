-- ===== src/Dups.antt =====
-- The detection of duplicate APS frames, aps/aps_dups.c: per remote device, in the address table, the
-- counter of the last frame and a clock that a timer runs down.
pub mod Count
pub mod Window
pub mod Tick
pub mod Callback
use zboss.Base.{
  ℕ, zero, suc, ◌+◌, ◌-◌, Bool, true, false, not, ◌&&◌, ◌||◌, ltb, ◌==◌, if◌then◌else◌, update,
  Option, none, some,
}

-- The fields of `zb_address_map_t`, by reference, and of the globals that play a part here; the alarms
-- scheduled are counted.
pub record Dups : Type 0 where
  pub used : ℕ → Bool
  pub aps_dup_counter : ℕ → ℕ
  pub aps_dup_clock : ℕ → ℕ
  pub n_elements : ℕ
  pub dups_alarm_running : Bool
  pub scheduled : ℕ

-- The test of `aps_check_dups` on the entry of the remote device.
unfoldable pub is_dup : Dups → ℕ → ℕ → Bool
is_dup s ref aps_counter = not (s.aps_dup_clock ref == 0) && s.aps_dup_counter ref == aps_counter

-- The update of the entry, and of the alarm, that follows.
unfoldable pub remember : Dups → ℕ → ℕ → Dups
remember s ref aps_counter = record s {
  aps_dup_counter = update s.aps_dup_counter ref aps_counter;
  aps_dup_clock = update s.aps_dup_clock ref 3;
  dups_alarm_running = true;
  scheduled = if s.dups_alarm_running then s.scheduled else s.scheduled + 1;
}

-- `aps_check_dups`, given the reference that `zb_address_by_short` hands out when it returns RET_OK.
unfoldable pub check_dups : Dups → Option ℕ → ℕ → Bool × Dups
check_dups s none aps_counter = (false, s)
check_dups s (some ref) aps_counter = (is_dup s ref aps_counter, remember s ref aps_counter)

-- One round of the loop of `zb_aps_check_timer_cb` over an entry in use.
unfoldable pub tick_entry : Dups → ℕ → Dups
tick_entry s i = if s.aps_dup_clock i == 0 then s else record s {
  aps_dup_clock = update s.aps_dup_clock i (s.aps_dup_clock i - 1);
  dups_alarm_running = s.dups_alarm_running || not (s.aps_dup_clock i - 1 == 0);
}

-- `for (i = n = 0 ; n < ZG->addr.n_elements ; ++i)`: the state and the index where it stops.
unfoldable pub tick_loop : ℕ → Dups → ℕ → ℕ → Dups × ℕ
tick_loop zero s i n = (s, i)
tick_loop (suc k) s i n =
    let counted = tick_loop k (tick_entry s i) (i + 1) (n + 1) in
    let skipped = tick_loop k s (i + 1) n in
    if ltb n s.n_elements then (if s.used i then counted else skipped) else (s, i)

-- ZB_IEEE_ADDR_TABLE_SIZE
abbrev pub ieee_addr_table_size : ℕ
ieee_addr_table_size = 101

-- The loop of `zb_aps_check_timer_cb` from its start.
unfoldable pub visit : Dups → Dups × ℕ
visit s = tick_loop (ieee_addr_table_size + 1) (record s { dups_alarm_running = false }) 0 0

-- `if (ZG->aps.dups_alarm_running)` the callback schedules itself again.
unfoldable pub reschedule : Dups → Dups
reschedule s = if s.dups_alarm_running then record s { scheduled = s.scheduled + 1 } else s

-- `zb_aps_check_timer_cb`
unfoldable pub check_timer_cb : Dups → Dups
check_timer_cb s = reschedule (visit s).0
