-- ===== src/Alarm/Due/Quiet.antt =====
-- The delayed execution of common/zb_scheduler.c, when the callbacks leave the queue alone.
use zboss.Base.{
  ℕ, zero, suc, ◌<◌, ◌≡◌, refl, sym, ap, ap₂, subst, ◌∙◌, arith, Bool, true, false, ◌==◌,
  if◌then◌else◌, Bool-cases, inl, inr, List, [], ◌∷◌, map, length, Ptr, null, update_self,
}
use zboss.Dlist.{Dlist, cut_head}
use zboss.Dlist.Rep.{Next, Next-update, has-first, Distinct-apart_right}
use zboss.Dlist.Insert.{head_ne_null, test_eq}
use zboss.Dlist.Remove.{cut_head-IsList}
use zboss.Time.{time_ge}
use zboss.Alarm.{Alarms, push_free}
use zboss.Alarm.Queue.{Holds}
use zboss.Alarm.Cancel.Release.{IsList-write_next, moved_apart}
use zboss.Alarm.Due.{AlarmCall, DueRun, make_calls, cut_due, due_loop}

cut_head-next : (q : Dlist) → (cut_head q).1.next ≡ q.next
unfolding cut_head
cut_head-next q = elim (Bool-cases (q.head == null)) [ inl e ↦ rw e refl | inr e ↦ rw e refl ]

-- The first entry has gone from the queue to the free list.
abbrev pub finish_head : Alarms → Alarms
finish_head s = push_free (cut_due s) s.tm_queue.head

finished-Holds :
    (s : Alarms) (x : Ptr) (xs fs : List Ptr)
    → Holds s (x ∷ xs) fs
    → Holds (push_free (cut_due s) x) xs (x ∷ fs)
unfolding push_free cut_due
finished-Holds s x xs fs h =
    let q = (cut_head s.tm_queue).1 in
    let (_, cut, _) = cut_head-IsList s.tm_queue x xs h.queued in
    let x_out = h.queued.distinct.0 in
    let x_fs = Distinct-apart_right x (x ∷ xs) fs h.apart (has-first x xs) in
    record {
      queued = IsList-write_next q x s.tm_freelist xs x_out cut;
      free_head = refl;
      free_next = (
        update_self q.next x s.tm_freelist ∙ h.free_head,
        Next-update q.next x s.tm_freelist fs null x_fs
            (subst (λ f. Next f fs null) (sym (cut_head-next s.tm_queue)) h.free_next),
      );
      free_non_null = (h.queued.non_null.0, h.free_non_null);
      apart = moved_apart x [] xs fs h.apart;
    }

finish_head-Holds :
    (s : Alarms) (x : Ptr) (xs fs : List Ptr)
    → Holds s (x ∷ xs) fs
    → Holds (finish_head s) xs (x ∷ fs)
finish_head-Holds s x xs fs h =
    subst (λ p. Holds (push_free (cut_due s) p) xs (x ∷ fs)) (sym h.queued.heads)
      (finished-Holds s x xs fs h)

module _ (run_time : Ptr → ℕ) (t : ℕ) where
  -- The alarm is due at time `t`.
  abbrev pub is_due : Ptr → Bool
  is_due p = time_ge t (run_time p)

  -- The entries in front of the first that is not due, and the others.
  abbrev pub due_first : List Ptr → List Ptr
  due_first [] = []
  due_first (x ∷ xs) = if is_due x then x ∷ due_first xs else []

  abbrev pub due_rest : List Ptr → List Ptr
  due_rest [] = []
  due_rest (x ∷ xs) = if is_due x then due_rest xs else x ∷ xs

-- Entries pushed one by one.
abbrev pub pushed : List Ptr → List Ptr → List Ptr
pushed [] fs = fs
pushed (x ∷ xs) fs = pushed xs (x ∷ fs)

-- The callback and the parameter of an entry.
abbrev pub entry : Alarms → Ptr → ℕ × ℕ
entry s p = (s.func p, s.param p)

-- The outcome of the loop from `s`, on the entries `xs` and with the free ones `fs`.
pub record Runs {W : Type 0} (s : Alarms) (t : ℕ) (xs fs : List Ptr) (r : DueRun W) : Type 0 where
  pub called : r.calls ≡ map (λ p. (s.func p, s.param p)) (due_first s.run_time t xs)
  pub ended : r.ended ≡ true
  pub held : Holds r.alarms (due_rest s.run_time t xs) (pushed (due_first s.run_time t xs) fs)

module _ {W : Type 0} (interrupt : W → Bool) (call : ℕ → ℕ → W → W × List AlarmCall)
    (undisturbed : (w : W) → interrupt w ≡ false)
    (quiet : (func param : ℕ) (w : W) → (call func param w).1 ≡ []) where
  loop_stop :
      (k t : ℕ) (s : Alarms) (w : W)
      → is_due s.run_time t s.tm_queue.head ≡ false
      → due_loop interrupt call (suc k) t s w
        ≡ record { calls = []; ended = true; alarms = s; world = w }
  unfolding due_loop
  loop_stop k t s w later = elim (Bool-cases (s.tm_queue.head == null)) [
    | inl empty ↦ rw empty refl
    | inr some_head ↦ rw (some_head, later) refl
  ]

  loop_go :
      (k t : ℕ) (s : Alarms) (w : W)
      → (s.tm_queue.head == null) ≡ false
      → is_due s.run_time t s.tm_queue.head ≡ true
      → let x = s.tm_queue.head in
        let rest = due_loop interrupt call k t (finish_head s) (call (s.func x) (s.param x) w).0 in
        due_loop interrupt call (suc k) t s w ≡ record rest { calls = entry s x ∷ rest.calls }
  unfolding due_loop make_calls
  loop_go k t s w some_head due =
      rw
        (
          due_loop,
          some_head,
          due,
          undisturbed w,
          quiet (s.func s.tm_queue.head) (s.param s.tm_queue.head) w,
        )
        refl

  empty_end :
      (k t : ℕ) (s : Alarms) (w : W)
      → s.tm_queue.head ≡ null
      → due_loop interrupt call (suc k) t s w
        ≡ record { calls = []; ended = true; alarms = s; world = w }
  unfolding due_loop
  empty_end k t s w empty = rw (test_eq s.tm_queue.head null empty) refl

  pub due_loop-Runs :
      (k t : ℕ) (s : Alarms) (w : W) (xs fs : List Ptr)
      → Holds s xs fs
      → length xs < k
      → Runs s t xs fs (due_loop interrupt call k t s w)
  unfolding push_free cut_due
  due_loop-Runs zero t s w xs fs h fuel = absurd (omega arith)
  due_loop-Runs (suc k) t s w [] fs h fuel =
      rw (empty_end k t s w h.queued.heads) (record { called = refl; ended = refl; held = h })
  due_loop-Runs (suc k) t s w (x ∷ xs) fs h fuel =
      let at_head = h.queued.heads in
      let rest =
        due_loop-Runs k t (finish_head s)
          (call (s.func s.tm_queue.head) (s.param s.tm_queue.head) w).0 xs (x ∷ fs)
          (finish_head-Holds s x xs fs h) (omega arith) in
      elim (Bool-cases (is_due s.run_time t x)) [
        | inr later ↦
            rw (loop_stop k t s w (ap (is_due s.run_time t) at_head ∙ later))
              (record { called = rw later refl; ended = refl; held = rw later h })
        | inl due ↦
            rw
              (loop_go k t s w (head_ne_null s.tm_queue x xs h.queued)
                (ap (is_due s.run_time t) at_head ∙ due))
              (record {
                called = rw due (ap₂ ◌∷◌ (ap (entry s) at_head) rest.called);
                ended = rest.ended;
                held = rw due rest.held;
              })
      ]
