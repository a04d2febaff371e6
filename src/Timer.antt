-- ===== src/Timer.antt =====
-- The software timer of common/zb_time.c, in the build for a host (no ZB8051). Starting the platform's
-- hardware timer (ZB_START_HW_TIMER) and masking interrupts have no state here.
pub mod Deadline
use zboss.Base.{ℕ, Bool, true, false, not, ◌||◌, if◌then◌else◌}
use zboss.Time.{time_add, time_ge}

-- `zb_timer_t` of include/zb_time.h
pub record Timer : Type 0 where
  pub timer_stop : ℕ
  pub timer : ℕ
  pub started : Bool

-- `zb_timer_start`
unfoldable pub timer_start : Timer → ℕ → Timer
timer_start c timeout =
    let t = time_add c.timer timeout in
    if not c.started || not (time_ge t c.timer_stop) || not (time_ge c.timer_stop c.timer)
    then record c { timer_stop = t; started = true }
    else c

-- `zb_timer_stop_async`
unfoldable pub timer_stop_async : Timer → Timer
timer_stop_async c = record c { started = false }
