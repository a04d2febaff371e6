-- ===== src/Timer/Deadline.antt =====
-- What a request to common/zb_time.c does to the time at which the timer stops.
use zboss.Base.{ℕ, ◌≤◌, ◌<◌, ◌≡◌, arith, true}
use zboss.Time.{wrap_sub, time_add, time_ge}
use zboss.Timer.{Timer, timer_start}

module _ (c : Timer) (timeout : ℕ) (now_in : c.timer < 65536) (stop_in : c.timer_stop < 65536)
    (short : timeout < 32767) where
  -- After a request to wake up within less than half the clock's range the timer runs, and stops no
  -- later than requested.
  pub timer_start-le :
      ((timer_start c timeout).started ≡ true)
      × (wrap_sub (timer_start c timeout).timer_stop c.timer ≤ timeout)
  unfolding timer_start time_add time_ge
  timer_start-le = ground arith

  -- On such a request a running timer that was to stop no later than requested is left as it is.
  pub timer_start-eq :
      c.started ≡ true → wrap_sub c.timer_stop c.timer ≤ timeout → timer_start c timeout ≡ c
  unfolding timer_start time_add time_ge
  timer_start-eq run early = ground arith
