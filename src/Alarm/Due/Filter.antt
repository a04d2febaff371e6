-- ===== src/Alarm/Due/Filter.antt =====
-- The delayed execution of common/zb_scheduler.c calls exactly what is due.
use zboss.Base.{
  ℕ, ◌<◌, ◌≡◌, refl, sym, ap, arith, Bool, true, false, not, Bool-cases, inl, inr, List, [], ◌∷◌,
  map, filter, length, All, Ptr,
}
use zboss.Alarm.{Alarms}
use zboss.Alarm.Queue.{Holds}
use zboss.Alarm.Order.{InWindow, AllInWindow, Ascending, NotBefore, time_ge-leb}
use zboss.Alarm.Due.{AlarmCall, due_loop}
use zboss.Alarm.Due.Quiet.{is_due, due_first, due_rest, pushed, due_loop-Runs}

-- In the order of time, the due ones in front are all that are due.
module _ (run_time : Ptr → ℕ) (base t : ℕ) (base_in : base < 65536) (t_in : InWindow base t) where
  none_due :
      (x : Ptr) (xs : List Ptr)
      → is_due run_time t x ≡ false
      → InWindow base (run_time x)
      → AllInWindow run_time base xs
      → All (NotBefore run_time base x) xs
      → (filter (is_due run_time t) xs ≡ []) × (filter (λ p. not (is_due run_time t p)) xs ≡ xs)
  none_due x [] later w ws after = (refl, refl)
  none_due x (y ∷ xs) later w (wy, ws) (ay, after) =
      let (none_here, all_here) = none_due x xs later w ws after in
      let still : is_due run_time t y ≡ false = ground (
        arith,
        time_ge-leb base t (run_time x) base_in t_in w,
        time_ge-leb base t (run_time y) base_in t_in wy,
      ) in
      rw still (none_here, ap (◌∷◌ y) all_here)

  due_first-filter :
      (xs : List Ptr)
      → AllInWindow run_time base xs
      → Ascending run_time base xs
      → (due_first run_time t xs ≡ filter (is_due run_time t) xs)
        × (due_rest run_time t xs ≡ filter (λ p. not (is_due run_time t p)) xs)
  due_first-filter [] w a = (refl, refl)
  due_first-filter (x ∷ xs) (w, ws) (a, as_) =
      let (front, rest) = due_first-filter xs ws as_ in
      elim (Bool-cases (is_due run_time t x)) [
        | inl due ↦ rw due (ap (◌∷◌ x) front, rest)
        | inr later ↦
            let (none_here, all_here) = none_due x xs later w ws a in
            rw later (sym none_here, ap (◌∷◌ x) (sym all_here))
      ]

-- When all pending times and the time `t` lie within less than half the clock's range after a common
-- base, the queue is in the order of time, no interrupt breaks in and no callback schedules or cancels
-- an alarm, the loop over the delayed callbacks, with more fuel than there are pending alarms, ends;
-- it has called the callbacks of exactly the alarms that are due at `t`, with their parameters and in
-- the order of the queue; the others stay queued in their order, and the entries of
-- those called are free.
pub due_loop-filter :
    {W : Type 0} (interrupt : W → Bool) (call : ℕ → ℕ → W → W × List AlarmCall) (base k t : ℕ)
    (s : Alarms) (w : W) (xs fs : List Ptr)
    → ((v : W) → interrupt v ≡ false)
    → ((func param : ℕ) (v : W) → (call func param v).1 ≡ [])
    → Holds s xs fs
    → length xs < k
    → base < 65536
    → InWindow base t
    → AllInWindow s.run_time base xs
    → Ascending s.run_time base xs
    → let due = filter (is_due s.run_time t) xs in
      let r = due_loop interrupt call k t s w in
      (r.ended ≡ true)
      × (r.calls ≡ map (λ p. (s.func p, s.param p)) due)
      × Holds r.alarms (filter (λ p. not (is_due s.run_time t p)) xs) (pushed due fs)
due_loop-filter interrupt call base k t s w xs fs undisturbed quiet h fuel base_in t_in ws a =
    let r = due_loop-Runs interrupt call undisturbed quiet k t s w xs fs h fuel in
    let (front, rest) = due_first-filter s.run_time base t base_in t_in xs ws a in
    rw (sym front, sym rest) (r.ended, r.called, r.held)
