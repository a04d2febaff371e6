-- ===== src/Alarm/Schedule.antt =====
-- `zb_schedule_alarm` on a queue that is in order: what it returns, queues and takes from the free
-- list.
use zboss.Base.{
  ℕ, ◌≡◌, ◌<◌, refl, sym, ap, subst, ◌∙◌, arith, false, List, [], ◌∷◌, ◌++◌, append_assoc, Ptr,
  null, update, update_self, update_ne, length, Bool-cases, inl, inr, not, ◌&&◌, ◌==◌,
}
use zboss.Dlist.Rep.{
  has, Distinct, IsList, Distinct-split, Distinct-insert, Distinct-apart, has-append, ne_of_has,
  has-cons_false,
}
use zboss.Dlist.Insert.{test_ne, test_eq}
use zboss.Time.{time_add, time_ge}
use zboss.Alarm.{Alarms, ok, overflow, enqueue, start_for_head, use_entry, schedule_alarm}
use zboss.Alarm.Queue.{Holds, Next-congr}
use zboss.Alarm.Place.{place, Comparable, enqueue-place, place-parts}

-- Starting the timer leaves the queue and the free list alone.
pub start_for_head-Holds :
    (s : Alarms) (xs fs : List Ptr) → Holds s xs fs → Holds (start_for_head s) xs fs
unfolding start_for_head
start_for_head-Holds s xs fs h =
    elim (Bool-cases (
      not (s.run_time s.tm_queue.head == s.clock.timer)
      && time_ge (s.run_time s.tm_queue.head) s.clock.timer)) [
        | inl due ↦ rw due (record {
          queued = h.queued;
          free_head = h.free_head;
          free_next = h.free_next;
          free_non_null = h.free_non_null;
          apart = h.apart;
        })
        | inr later ↦ rw later h
      ]

module _ (e : Ptr) (xs fs : List Ptr) (d : Distinct (xs ++ e ∷ fs)) where
  Distinct-place : (run_time : Ptr → ℕ) (t : ℕ) → Distinct (place run_time t e xs ++ fs)
  Distinct-place run_time t =
      let (ys, zs, placed, whole) = place-parts run_time t e xs in
      let (out_xs, out_fs, rest) = Distinct-split e xs fs d in
      let parted : xs ++ fs ≡ ys ++ (zs ++ fs) =
        ap (λ l. l ++ fs) (sym whole) ∙ append_assoc ys zs fs in
      let out : has e (ys ++ (zs ++ fs)) ≡ false =
        ap (has e) (sym parted) ∙ ground (arith, has-append e xs fs, out_xs, out_fs) in
      subst (λ l. Distinct l) (sym (append_assoc ys (e ∷ zs) fs) ∙ ap (λ l. l ++ fs) (sym placed))
        (Distinct-insert e ys (zs ++ fs) out (subst (λ l. Distinct l) parted rest))

-- The new time of a free entry does not bear on the comparison with the queue.
Comparable-update :
    (run_time : Ptr → ℕ) (e : Ptr) (v t : ℕ) (xs : List Ptr)
    → has e xs ≡ false
    → Comparable run_time t xs
    → Comparable (update run_time e v) t xs
Comparable-update run_time e v t [] out c = tt
Comparable-update run_time e v t (x ∷ xs) out c =
    let ne = (has-cons_false e x xs out).0 in rw (update_ne run_time e x v (λ r. ne (sym r))) c

-- Filling and queueing the free entry `e` puts it in its place among the pending ones, takes it from
-- the free list, and keeps the order of all others.
use_entry-Holds :
    (s : Alarms) (e : Ptr) (xs fs : List Ptr) (func param run_after : ℕ)
    → Holds s xs (e ∷ fs)
    → length xs < 17
    → Comparable s.run_time (time_add s.clock.timer run_after) xs
    → let t = time_add s.clock.timer run_after in
      Holds (use_entry s e func param run_after) (place (update s.run_time e t) t e xs) fs
unfolding use_entry
use_entry-Holds s e xs fs func param run_after h short c =
    let t = time_add s.clock.timer run_after in
    let run_time = update s.run_time e t in
    let (e_out, e_out_fs, rest) = Distinct-split e xs fs h.apart in
    let at_t : run_time e ≡ t = update_self s.run_time e t in
    let (placed, spared) =
      enqueue-place run_time s.tm_queue e xs h.queued h.free_non_null.0 e_out short
        (rw at_t (Comparable-update s.run_time e t t xs e_out c)) in
    record {
      queued =
          subst (λ v. IsList (enqueue run_time s.tm_queue e) (place run_time v e xs)) at_t placed;
      free_head = h.free_next.0;
      free_next =
          Next-congr s.tm_queue.next _ fs null
            (λ p m. spared p (ne_of_has p e fs m e_out_fs) (Distinct-apart p xs fs rest m))
            h.free_next.1;
      free_non_null = h.free_non_null.1;
      apart = Distinct-place e xs fs h.apart run_time t;
    }

-- With no free entry `zb_schedule_alarm` returns RET_OVERFLOW and changes nothing.
pub schedule_alarm-overflow :
    (s : Alarms) (xs : List Ptr) (func param run_after : ℕ)
    → Holds s xs []
    → schedule_alarm s func param run_after ≡ (overflow, s)
unfolding schedule_alarm
schedule_alarm-overflow s xs func param run_after h = rw (test_eq s.tm_freelist null h.free_head)

start_for_head_fields :
    (s : Alarms)
    → ((start_for_head s).func ≡ s.func)
      × ((start_for_head s).param ≡ s.param)
      × ((start_for_head s).run_time ≡ s.run_time)
unfolding start_for_head
start_for_head_fields s =
    elim (Bool-cases (
      not (s.run_time s.tm_queue.head == s.clock.timer)
      && time_ge (s.run_time s.tm_queue.head) s.clock.timer)) [
        | inl due ↦ rw due (refl, refl, refl)
        | inr later ↦ rw later (refl, refl, refl)
      ]

module _ (s : Alarms) (e : Ptr) (xs fs : List Ptr) (func param run_after : ℕ)
    (h : Holds s xs (e ∷ fs)) where
  -- With a free entry the call succeeds, and is the use of that entry followed by the timer's start.
  pub schedule_alarm_eq :
      schedule_alarm s func param run_after
      ≡ (ok, start_for_head (use_entry s e func param run_after))
  unfolding schedule_alarm
  schedule_alarm_eq =
      let some_free = test_ne s.tm_freelist null (λ r. h.free_non_null.0 (sym h.free_head ∙ r)) in
      rw some_free (ap (λ p. (ok, start_for_head (use_entry s p func param run_after))) h.free_head)

  -- With a free entry `e` in front of the free list, at most 16 pending entries, and a first of them
  -- that ZB_TIME_GE orders with the new time one way or the other, `zb_schedule_alarm` returns RET_OK,
  -- puts `e` in its place among the pending entries, takes it from the free list, keeps the order of all
  -- others, and gives `e` the callback, the parameter and the time asked for.
  pub schedule_alarm-Holds :
      length xs < 17
      → Comparable s.run_time (time_add s.clock.timer run_after) xs
      → let t = time_add s.clock.timer run_after in
        let (ret, s') = schedule_alarm s func param run_after in
        (ret ≡ ok)
        × Holds s' (place s'.run_time t e xs) fs
        × (s'.func e ≡ func)
        × (s'.param e ≡ param)
        × (s'.run_time e ≡ t)
  unfolding use_entry start_for_head
  schedule_alarm-Holds short c =
      let t = time_add s.clock.timer run_after in
      let used = use_entry s e func param run_after in
      let (f, p, r) = start_for_head_fields used in
      rw (schedule_alarm_eq, r)
        (
          refl,
          start_for_head-Holds used _ fs (use_entry-Holds s e xs fs func param run_after h short c),
          ap (λ g. g e) f ∙ update_self s.func e func,
          ap (λ g. g e) p ∙ update_self s.param e param,
          update_self s.run_time e t,
        )

  -- The call changes no pending time but that of `e`.
  pub schedule_alarm-run_time :
      (schedule_alarm s func param run_after).1.run_time
      ≡ update s.run_time e (time_add s.clock.timer run_after)
  unfolding use_entry
  schedule_alarm-run_time =
      rw schedule_alarm_eq (start_for_head_fields (use_entry s e func param run_after)).2
