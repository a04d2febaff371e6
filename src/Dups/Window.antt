-- ===== src/Dups/Window.antt =====
-- How long `aps_check_dups` remembers a frame.
use zboss.Base.{
  ℕ, zero, suc, ◌-◌, ◌<◌, ◌≡◌, refl, ap, ◌∙◌, arith, true, not, ◌&&◌, ltb, ◌==◌, update_self, some,
}
use zboss.Dups.{Dups, is_dup, remember, check_dups, check_timer_cb, ieee_addr_table_size}
use zboss.Dups.Count.{IsCounted}
use zboss.Dups.Callback.{check_timer_cb-clock, check_timer_cb-IsCounted, check_timer_cb-used}

-- `n` runs of the timer's callback.
unfoldable pub ticks : ℕ → Dups → Dups
ticks zero s = s
ticks (suc n) s = ticks n (check_timer_cb s)

ticks-clock :
    (n : ℕ) (s : Dups) (j : ℕ)
    → IsCounted s
    → j < ieee_addr_table_size
    → s.used j ≡ true
    → ((ticks n s).aps_dup_clock j ≡ s.aps_dup_clock j - n)
      × ((ticks n s).aps_dup_counter ≡ s.aps_dup_counter)
unfolding ticks
ticks-clock zero s j counted below on = (omega arith, refl)
ticks-clock (suc n) s j counted below on =
    let (clock, counter, _) = check_timer_cb-clock s j counted below in
    let on' = ap (λ u. u j) (check_timer_cb-used s counted) ∙ on in
    let (clock', counter') =
      ticks-clock n (check_timer_cb s) j (check_timer_cb-IsCounted s counted) below on' in
    let once : (check_timer_cb s).aps_dup_clock j ≡ s.aps_dup_clock j - 1 = clock ∙ rw on refl in
    (clock' ∙ omega (arith, once), counter' ∙ counter)

fresh :
    (clock counter n c c' : ℕ)
    → clock ≡ 3 - n
    → counter ≡ c
    → (not (clock == 0) && counter == c') ≡ (ltb n 3 && c == c')
fresh clock counter n c c' h k = ground arith

-- When `n_elements` is the number of entries in use, `aps_check_dups` takes a frame with the counter
-- `c'` that follows a frame with the counter `c` of the same device after `n` runs of the timer's
-- callback for a duplicate exactly when the counters are equal and `n` is less than 3.
pub is_dup-remember :
    (s : Dups) (ref c c' n : ℕ)
    → IsCounted s
    → ref < ieee_addr_table_size
    → s.used ref ≡ true
    → (check_dups (ticks n (check_dups s (some ref) c).1) (some ref) c').0 ≡ (ltb n 3 && c == c')
unfolding check_dups is_dup remember
is_dup-remember s ref c c' n counted below on =
    let s' = remember s ref c in
    let (clock, counter) = ticks-clock n s' ref counted below on in
    fresh _ _ n c c' (clock ∙ ap (λ k. k - n) (update_self s.aps_dup_clock ref 3))
      (ap (λ f. f ref) counter ∙ update_self s.aps_dup_counter ref c)
