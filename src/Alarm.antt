-- ===== src/Alarm.antt =====
-- The delayed callbacks of common/zb_scheduler.c: a pool of entries, those in use in a doubly linked
-- queue by time, the others on a free list that runs through the same `next` fields.
pub mod Queue
pub mod Walk
pub mod Place
pub mod Schedule
pub mod Order
pub mod Cancel
pub mod Init
pub mod Due
use zboss.Base.{
  ℕ, zero, suc, ◌+◌, Ptr, null, update, Bool, true, false, not, ◌&&◌, ◌||◌, ◌==◌, if◌then◌else◌,
}
use zboss.Dlist.{Dlist, insert_head, insert_tail, insert_after, remove}
use zboss.Time.{time_add, time_ge, time_subtract}
use zboss.Timer.{Timer, timer_start}

-- The timer part of `zb_sched_globals_t`: the fields of each `zb_tm_q_ent_t`, the queue with the
-- link fields, the free list, and the clock. A callback is known by its address.
pub record Alarms : Type 0 where
  pub func : Ptr → ℕ
  pub param : Ptr → ℕ
  pub run_time : Ptr → ℕ
  pub tm_queue : Dlist
  pub tm_freelist : Ptr
  pub clock : Timer

-- What the calls return of `enum zb_ret_e`.
pub data Ret : Type 0 where
  ok : Ret
  overflow : Ret
  not_found : Ret
  already_exists : Ret
  no_memory : Ret

-- ZB_SCHEDULER_Q_SIZE
abbrev pub scheduler_q_size : ℕ
scheduler_q_size = 16

-- ZB_ALARM_ANY_PARAM and ZB_ALARM_ALL_CB
abbrev pub alarm_any_param : ℕ
alarm_any_param = 255

abbrev pub alarm_all_cb : ℕ
alarm_all_cb = 254

-- `while (ent != 0 && ZB_TIME_GE(nent->run_time, ent->run_time)) ent = ent->next`
unfoldable pub walk : ℕ → (Ptr → ℕ) → (Ptr → Ptr) → ℕ → Ptr → Ptr
walk zero run_time next t ent = null
walk (suc k) run_time next t ent =
    let rest = walk k run_time next t (next ent) in
    if ent == null then ent else if time_ge t (run_time ent) then rest else ent

-- Where the walk of `zb_schedule_alarm` ends, the new entry goes before that place.
unfoldable pub insert_before : Dlist → Ptr → Ptr → Dlist
insert_before q ent nent =
    if ent == null
    then insert_tail q nent
    else if q.prev ent == null
    then insert_head q nent
    else insert_after q (q.prev ent) nent

-- The queueing of `zb_schedule_alarm`, the new entry's fields being set.
unfoldable pub enqueue : (Ptr → ℕ) → Dlist → Ptr → Dlist
enqueue run_time q nent =
    if q.head == null || time_ge (run_time q.head) (run_time nent)
    then insert_head q nent
    else insert_before q (walk 17 run_time q.next (run_time nent) q.head) nent

-- The end of `zb_schedule_alarm`: start the timer for the head, unless it is due.
unfoldable pub start_for_head : Alarms → Alarms
start_for_head s =
    let head_time = s.run_time s.tm_queue.head in
    let t = s.clock.timer in
    if not (head_time == t) && time_ge head_time t
    then record s { clock = timer_start s.clock (time_subtract head_time t) }
    else s

-- The middle of `zb_schedule_alarm`: fill the entry popped from the free list and queue it.
unfoldable pub use_entry : Alarms → Ptr → ℕ → ℕ → ℕ → Alarms
use_entry s nent func param run_after =
    let run_time = update s.run_time nent (time_add s.clock.timer run_after) in
    record {
      func = update s.func nent func;
      param = update s.param nent param;
      run_time = run_time;
      tm_queue = enqueue run_time s.tm_queue nent;
      tm_freelist = s.tm_queue.next nent;
      clock = s.clock;
    }

-- `zb_schedule_alarm`
unfoldable pub schedule_alarm : Alarms → ℕ → ℕ → ℕ → Ret × Alarms
schedule_alarm s func param run_after =
    if s.tm_freelist == null
    then (overflow, s)
    else (ok, start_for_head (use_entry s s.tm_freelist func param run_after))

-- The test of `zb_schedule_alarm_cancel` on one entry.
unfoldable pub cancels : Alarms → ℕ → ℕ → Ptr → Bool
cancels s func param ent =
    (s.func ent == func)
    && ((param == alarm_any_param) || (param == alarm_all_cb) || (param == s.param ent))

-- ZB_LIST_REMOVE from the queue, then ZB_STK_PUSH on the free list.
unfoldable pub release : Alarms → Ptr → Alarms
release s ent =
    let q = remove s.tm_queue ent in
    record s { tm_queue = record q { next = update q.next ent s.tm_freelist }; tm_freelist = ent }

-- The loop of `zb_schedule_alarm_cancel`.
unfoldable pub cancel_loop : ℕ → Alarms → ℕ → ℕ → Ptr → Ret → Ret × Alarms
cancel_loop zero s func param ent ret = (ret, s)
cancel_loop (suc k) s func param ent ret =
    let next = s.tm_queue.next ent in
    let skip = cancel_loop k s func param next ret in
    let again = cancel_loop k (release s ent) func param next ok in
    if ent == null
    then (ret, s)
    else if cancels s func param ent
    then (if param == alarm_all_cb then again else (ok, release s ent))
    else skip

-- `zb_schedule_alarm_cancel`
unfoldable pub schedule_alarm_cancel : Alarms → ℕ → ℕ → Ret × Alarms
schedule_alarm_cancel s func param = cancel_loop 17 s func param s.tm_queue.head not_found

-- ZB_STK_PUSH on the free list.
unfoldable pub push_free : Alarms → Ptr → Alarms
push_free s ent = record s {
  tm_queue = record s.tm_queue { next = update s.tm_queue.next ent s.tm_freelist };
  tm_freelist = ent;
}

-- The first loop of `zb_sched_init`, over the entries `&tm_buffer[i]`, given by their addresses.
unfoldable pub init_loop : ℕ → ℕ → (ℕ → Ptr) → Alarms → Alarms
init_loop zero i tm_buffer s = s
init_loop (suc k) i tm_buffer s = init_loop k (i + 1) tm_buffer (push_free s (tm_buffer i))

-- `zb_sched_init`, for the timer queue.
unfoldable pub sched_init : (ℕ → Ptr) → Alarms → Alarms
sched_init tm_buffer s = init_loop scheduler_q_size 0 tm_buffer s
