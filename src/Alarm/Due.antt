-- ===== src/Alarm/Due.antt =====
-- The part of `zb_sched_loop_iteration` in common/zb_scheduler.c that handles delayed execution. What a
-- callback does is not the scheduler's code: `call` is a parameter, which changes the state `W` of the
-- rest of the program and names the calls of `zb_schedule_alarm` and `zb_schedule_alarm_cancel` that
-- the callback makes, in order.
pub mod Quiet
pub mod Filter
use zboss.Base.{
  ℕ, zero, suc, Bool, true, false, not, ◌&&◌, ◌==◌, if◌then◌else◌, List, [], ◌∷◌, Ptr, null,
}
use zboss.Dlist.{Dlist, cut_head}
use zboss.Time.{time_ge, time_subtract}
use zboss.Timer.{Timer, timer_start, timer_stop_async}
use zboss.Alarm.{Alarms, schedule_alarm, schedule_alarm_cancel, push_free}

-- A call that a callback makes.
pub data AlarmCall : Type 0 where
  schedule : ℕ → ℕ → ℕ → AlarmCall
  cancel : ℕ → ℕ → AlarmCall

unfoldable pub make_calls : Alarms → List AlarmCall → Alarms
make_calls s [] = s
make_calls s (schedule func param run_after ∷ rest) =
    make_calls (schedule_alarm s func param run_after).1 rest
make_calls s (cancel func param ∷ rest) = make_calls (schedule_alarm_cancel s func param).1 rest

-- The outcome of the loop over the queue: the callbacks called with their parameters, whether it has
-- come to its end, the alarms and the rest of the state.
pub record DueRun (W : Type 0) : Type 0 where
  pub calls : List (ℕ × ℕ)
  pub ended : Bool
  pub alarms : Alarms
  pub world : W

-- ZB_LIST_CUT_HEAD from the queue.
unfoldable pub cut_due : Alarms → Alarms
cut_due s = record s { tm_queue = (cut_head s.tm_queue).1 }

module _ {W : Type 0} (interrupt : W → Bool) (call : ℕ → ℕ → W → W × List AlarmCall) where
  -- `while ((ent = ZB_LIST_GET_HEAD(ZG->sched.tm_queue, next)) != NULL && ZB_TIME_GE(t,
  -- ent->run_time))`; the entry goes to the free list after its callback has returned.
  unfoldable pub due_loop : ℕ → ℕ → Alarms → W → DueRun W
  due_loop zero t s w = record { calls = []; ended = false; alarms = s; world = w }
  due_loop (suc k) t s w =
      let ent = s.tm_queue.head in
      let (w', made) = call (s.func ent) (s.param ent) w in
      let rest = due_loop k t (push_free (make_calls (cut_due s) made) ent) w' in
      if not (ent == null) && time_ge t (s.run_time ent) && not (interrupt w)
      then record rest { calls = (s.func ent, s.param ent) ∷ rest.calls }
      else record { calls = []; ended = true; alarms = s; world = w }

-- The end: restart the timer for the first alarm, if there is one.
unfoldable pub restart_timer : ℕ → Alarms → Alarms
restart_timer t s =
    if s.tm_queue.head == null
    then record s { clock = timer_stop_async s.clock }
    else record s { clock = timer_start s.clock (time_subtract (s.run_time s.tm_queue.head) t) }

module _ {W : Type 0} (interrupt : W → Bool) (call : ℕ → ℕ → W → W × List AlarmCall) where
  -- From `Handle delayed execution` on; with an empty queue `t` stays 0.
  unfoldable pub delayed_execution : ℕ → Alarms → W → DueRun W
  delayed_execution k s w =
      let t = s.clock.timer in
      let run = due_loop interrupt call k t s w in
      if s.tm_queue.head == null
      then record { calls = []; ended = true; alarms = restart_timer 0 s; world = w }
      else record run { alarms = restart_timer t run.alarms }
