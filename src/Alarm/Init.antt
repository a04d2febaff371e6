-- ===== src/Alarm/Init.antt =====
-- `zb_sched_init` puts all entries of the pool on the free list.
use zboss.Base.{
  ℕ, zero, suc, ◌+◌, ◌<◌, ◌≡◌, ◌≢◌, refl, subst, ◌∙◌, arith, false, List, [], ◌∷◌, Ptr, null,
  update_self, ◌==◌,
}
use zboss.Dlist.Rep.{has, Next-update}
use zboss.Alarm.{Alarms, push_free, init_loop, sched_init}
use zboss.Alarm.Queue.{Holds}

-- Pushing an entry that is in no list puts it in front of the free list.
push_free-Holds :
    (s : Alarms) (e : Ptr) (fs : List Ptr)
    → Holds s [] fs
    → e ≢ null
    → has e fs ≡ false
    → Holds (push_free s e) [] (e ∷ fs)
unfolding push_free
push_free-Holds s e fs h ne out = record {
  queued = record { heads = h.queued.heads; nexts = tt; prevs = tt; distinct = tt; non_null = tt };
  free_head = refl;
  free_next = (
    update_self s.tm_queue.next e s.tm_freelist ∙ h.free_head,
    Next-update s.tm_queue.next e s.tm_freelist fs null out h.free_next,
  );
  free_non_null = (ne, h.free_non_null);
  apart = (out, h.apart);
}

-- The addresses of the first `i` entries, the last one first.
unfoldable pub entries : (ℕ → Ptr) → ℕ → List Ptr
entries tm_buffer zero = []
entries tm_buffer (suc i) = tm_buffer i ∷ entries tm_buffer i

module _ (tm_buffer : ℕ → Ptr) (present : (i : ℕ) → tm_buffer i ≢ null)
    (apart : (i j : ℕ) → i < j → tm_buffer j ≢ tm_buffer i) where
  entries-has : (i j : ℕ) → i < j + 1 → has (tm_buffer j) (entries tm_buffer i) ≡ false
  unfolding entries
  entries-has zero j h = refl
  entries-has (suc i) j h =
      let ne : tm_buffer j ≢ tm_buffer i = apart i j (omega arith) in
      let test : (tm_buffer j == tm_buffer i) ≡ false = ground arith in
      rw test (entries-has i j (omega arith))

  init_loop-Holds :
      (k i : ℕ) (s : Alarms)
      → Holds s [] (entries tm_buffer i)
      → Holds (init_loop k i tm_buffer s) [] (entries tm_buffer (k + i))
  unfolding init_loop entries
  init_loop-Holds zero i s h = subst (λ n. Holds s [] (entries tm_buffer n)) (omega arith) h
  init_loop-Holds (suc k) i s h =
      let next : suc i ≡ i + 1 = omega arith in
      let pushed =
        push_free-Holds s (tm_buffer i) (entries tm_buffer i) h (present i)
          (entries-has i i (omega arith)) in
      let rest =
        init_loop-Holds k (i + 1) (push_free s (tm_buffer i))
          (subst (λ n. Holds (push_free s (tm_buffer i)) [] (entries tm_buffer n)) next pushed) in
      subst
        (λ n.
          Holds (init_loop k (i + 1) tm_buffer (push_free s (tm_buffer i))) []
            (entries tm_buffer n))
        (omega arith) rest

  -- Let the entries of the pool have different addresses other than NULL. From a state with no pending
  -- alarm and no free entry, `zb_sched_init` leaves one with no pending alarm and all 16 entries free,
  -- the last one first.
  pub sched_init-Holds :
      (s : Alarms) → Holds s [] [] → Holds (sched_init tm_buffer s) [] (entries tm_buffer 16)
  unfolding sched_init entries
  sched_init-Holds s h = init_loop-Holds 16 0 s h
