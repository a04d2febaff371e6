-- ===== src/Alarm/Order.antt =====
-- The timer queue stays in the order of time, as long as all pending times lie within less than half
-- the clock's range of a common base, whether or not the clock wraps between them.
use zboss.Base.{
  ℕ, ◌≡◌, ◌≢◌, ◌≤◌, ◌<◌, sym, subst, arith, false, true, List, [], ◌∷◌, ◌++◌, Ptr, All, update,
  update_ne, update_self, length, leb, Bool-cases, inl, inr,
}
use zboss.Dlist.Rep.{has, Distinct-split, has-cons_false}
use zboss.Time.{wrap_sub, time_add, time_ge}
use zboss.Alarm.{Alarms, ok, schedule_alarm}
use zboss.Alarm.Queue.{Holds}
use zboss.Alarm.Walk.{before, after}
use zboss.Alarm.Place.{place, Comparable}
use zboss.Alarm.Schedule.{schedule_alarm-Holds, schedule_alarm-run_time}

-- A 16-bit time less than half the range after `base`.
abbrev pub InWindow : ℕ → ℕ → Type 0
InWindow base v = (v < 65536) × (wrap_sub v base < 32767)

-- Two times of the window compare as their distances from the base do.
pub time_ge-leb :
    (base v w : ℕ)
    → base < 65536
    → InWindow base v
    → InWindow base w
    → time_ge v w ≡ leb (wrap_sub w base) (wrap_sub v base)
unfolding time_ge
time_ge-leb base v w hb hv hw = ground arith

module _ (run_time : Ptr → ℕ) (base : ℕ) where
  abbrev pub NotBefore : Ptr → Ptr → Type 0
  NotBefore p q = wrap_sub (run_time p) base ≤ wrap_sub (run_time q) base

  -- Each entry is due no later than all behind it.
  abbrev pub Ascending : List Ptr → Type 0
  Ascending [] = Unit
  Ascending (x ∷ xs) = All (NotBefore x) xs × Ascending xs

  abbrev pub AllInWindow : List Ptr → Type 0
  AllInWindow = All (λ p. InWindow base (run_time p))

  All-trans :
      (e x : Ptr) (xs : List Ptr) → NotBefore e x → All (NotBefore x) xs → All (NotBefore e) xs
  All-trans e x [] h k = tt
  All-trans e x (y ∷ xs) h k = (omega (arith, k.0), All-trans e x xs h k.1)

  -- The parts of the queue around a place for `e`, with `e` between them.
  All-between :
      (x e : Ptr) (t : ℕ) (xs : List Ptr)
      → NotBefore x e
      → All (NotBefore x) xs
      → All (NotBefore x) (before run_time t xs ++ e ∷ after run_time t xs)
  unfolding before after
  All-between x e t [] h k = (h, tt)
  All-between x e t (y ∷ xs) h k = elim (Bool-cases (time_ge t (run_time y))) [
    | inl p ↦ rw p (k.0, All-between x e t xs h k.1)
    | inr p ↦ rw p (h, k)
  ]

  module _ (e : Ptr) (base_in : base < 65536) (e_in : InWindow base (run_time e)) where
    passed :
        (y : Ptr)
        → InWindow base (run_time y)
        → time_ge (run_time e) (run_time y) ≡ true
        → NotBefore y e
    passed y w h = ground (arith, time_ge-leb base (run_time e) (run_time y))

    stopped :
        (y : Ptr)
        → InWindow base (run_time y)
        → time_ge (run_time e) (run_time y) ≡ false
        → NotBefore e y
    stopped y w h = ground (arith, time_ge-leb base (run_time e) (run_time y))

    Ascending-between :
        (xs : List Ptr)
        → AllInWindow xs
        → Ascending xs
        → Ascending (before run_time (run_time e) xs ++ e ∷ after run_time (run_time e) xs)
    unfolding before after
    Ascending-between [] w h = (tt, tt)
    Ascending-between (y ∷ xs) w h = elim (Bool-cases (time_ge (run_time e) (run_time y))) [
      | inl p ↦
          rw p (All-between y e (run_time e) xs (passed y w.0 p) h.0, Ascending-between xs w.1 h.1)
      | inr p ↦ let first = stopped y w.0 p in rw p ((first, All-trans e y xs first h.0), h)
    ]

    -- Placing an entry keeps the order of time.
    pub Ascending-place :
        (xs : List Ptr)
        → AllInWindow xs
        → Ascending xs
        → Ascending (place run_time (run_time e) e xs)
    unfolding place
    Ascending-place [] w h = (tt, tt)
    Ascending-place (x ∷ xs) w h = elim (Bool-cases (time_ge (run_time x) (run_time e))) [
      | inl p ↦
          let first : NotBefore e x = ground (arith, time_ge-leb base (run_time x) (run_time e)) in
          rw p ((first, All-trans e x xs first h.0), h)
      | inr p ↦ rw p (Ascending-between (x ∷ xs) w h)
    ]

-- Within the window the comparison that the code makes at the head is conclusive.
InWindow-Comparable :
    (run_time : Ptr → ℕ) (base t : ℕ) (xs : List Ptr)
    → base < 65536
    → InWindow base t
    → AllInWindow run_time base xs
    → Comparable run_time t xs
InWindow-Comparable run_time base t [] hb ht w = tt
InWindow-Comparable run_time base t (x ∷ xs) hb ht w =
    ground (arith, time_ge-leb base (run_time x) t, time_ge-leb base t (run_time x))

-- A new time of an entry that is not queued changes nothing for the queue.
module _ (run_time : Ptr → ℕ) (base e t : ℕ) where
  All-NotBefore-update :
      (x : Ptr) (xs : List Ptr)
      → x ≢ e
      → has e xs ≡ false
      → All (NotBefore run_time base x) xs
      → All (NotBefore (update run_time e t) base x) xs
  All-NotBefore-update x [] ne out h = tt
  All-NotBefore-update x (y ∷ ys) ne out h =
      let (ne_y, out_ys) = has-cons_false e y ys out in
      (
        rw (update_ne run_time e x t ne, update_ne run_time e y t (λ r. ne_y (sym r))) h.0,
        All-NotBefore-update x ys ne out_ys h.1,
      )

  Ascending-update :
      (xs : List Ptr)
      → has e xs ≡ false
      → Ascending run_time base xs
      → Ascending (update run_time e t) base xs
  Ascending-update [] out h = tt
  Ascending-update (x ∷ xs) out h =
      let (ne, out_xs) = has-cons_false e x xs out in
      (All-NotBefore-update x xs (λ r. ne (sym r)) out_xs h.0, Ascending-update xs out_xs h.1)

  InWindow-update :
      (xs : List Ptr)
      → has e xs ≡ false
      → AllInWindow run_time base xs
      → AllInWindow (update run_time e t) base xs
  InWindow-update [] out h = tt
  InWindow-update (x ∷ xs) out h =
      let (ne, out_xs) = has-cons_false e x xs out in
      (rw (update_ne run_time e x t (λ r. ne (sym r))) h.0, InWindow-update xs out_xs h.1)

-- When at most 16 entries are pending, all pending times and the new one lie within less than half the
-- clock's range after a common base and the queue is in the order of time, then with a free entry
-- `zb_schedule_alarm` returns RET_OK and leaves a queue of all the old entries and the new one, again
-- in the order of time.
pub schedule_alarm-Ascending :
    (s : Alarms) (base e : ℕ) (xs fs : List Ptr) (func param run_after : ℕ)
    → Holds s xs (e ∷ fs)
    → length xs < 17
    → base < 65536
    → InWindow base (time_add s.clock.timer run_after)
    → AllInWindow s.run_time base xs
    → Ascending s.run_time base xs
    → let t = time_add s.clock.timer run_after in
      let (ret, s') = schedule_alarm s func param run_after in
      (ret ≡ ok)
      × Holds s' (place s'.run_time t e xs) fs
      × Ascending s'.run_time base (place s'.run_time t e xs)
schedule_alarm-Ascending s base e xs fs func param run_after h short hb ht w a =
    let t = time_add s.clock.timer run_after in
    let run_time = update s.run_time e t in
    let out = (Distinct-split e xs fs h.apart).0 in
    let at_t : run_time e ≡ t = update_self s.run_time e t in
    let e_in = subst (InWindow base) (sym at_t) ht in
    let w' = InWindow-update s.run_time base e t xs out w in
    let a' = Ascending-update s.run_time base e t xs out a in
    let sorted = Ascending-place run_time base e hb e_in xs w' a' in
    let comparable = InWindow-Comparable s.run_time base t xs hb ht w in
    let (ret, held, _, _, _) =
      schedule_alarm-Holds s e xs fs func param run_after h short comparable in
    let times = schedule_alarm-run_time s e xs fs func param run_after h in
    (
      ret,
      held,
      subst (λ g. Ascending g base (place g t e xs)) (sym times)
          (subst (λ v. Ascending run_time base (place run_time v e xs)) at_t sorted),
    )
