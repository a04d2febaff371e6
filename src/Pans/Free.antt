-- ===== src/Pans/Free.antt =====
-- The free place that the loop of `zb_address_set_pan_id` remembers.
use zboss.Base.{
  ℕ, zero, suc, ◌+◌, ◌%◌, ◌<◌, ◌≤◌, ◌≡◌, ◌≢◌, refl, sym, ap, ◌∙◌, arith, Bool, true, false, ◌==◌,
  if◌then◌else◌, Bool-cases, inl, inr, ◌⊎◌, List, Option, none, some,
}
use native.Mathlib.Decide.{dec_lt}
use zboss.Pans.{Pans, panid_table_size, has_pan_id, set_loop}

free_some :
    (used : Bool) (i f : ℕ) (free : Option ℕ)
    → (if used then free else some i) ≡ some f
    → (free ≡ some f) ⊎ ((used ≡ false) × (i ≡ f))
free_some true i f free e = inl e
free_some false i f free e = inr (refl, ap (λ o. elim o [ none ↦ i | some x ↦ x ]) e)

pub some-none : (i : ℕ) → some i ≡ none → ⊥
some-none i e = ground arith

free_none :
    (used : Bool) (i : ℕ) (free : Option ℕ)
    → (if used then free else some i) ≡ none
    → (free ≡ none) × (used ≡ true)
free_none true i free e = (e, refl)
free_none false i free e = ground arith

module _ (s : Pans) (pan_id : List ℕ) (h : ℕ) (h_in : h < panid_table_size) where
  pub set_loop-free :
      (k i f : ℕ) (free : Option ℕ)
      → i < panid_table_size
      → (set_loop k s pan_id h i free).1 ≡ some f
      → (free ≡ some f) ⊎ ((f < panid_table_size) × (s.used_pan_addr f ≡ false))
  unfolding set_loop
  set_loop-free zero i f free inside e = inl e
  set_loop-free (suc k) i f free inside e =
      let next = (i + 1) % panid_table_size in
      elim (Bool-cases (has_pan_id s pan_id i)) [
        | inl found ↦ inl (rw found at e)
        | inr missed ↦ elim (Bool-cases (next == h)) [
          | inl end ↦ here i f free inside (rw (missed, end) at e)
          | inr more ↦
              elim (set_loop-free k next f (if s.used_pan_addr i then free else some i)
                (omega arith) (rw (missed, more) at e)) [
                  | inl before ↦ here i f free inside before
                  | inr later ↦ inr later
                ]
        ]
      ]
    where
      here :
          (i f : ℕ) (free : Option ℕ)
          → i < panid_table_size
          → (if s.used_pan_addr i then free else some i) ≡ some f
          → (free ≡ some f) ⊎ ((f < panid_table_size) × (s.used_pan_addr f ≡ false))
      here i f free inside e = elim (free_some (s.used_pan_addr i) i f free e) [
        | inl before ↦ inl before
        | inr (empty, same) ↦ inr (omega arith, ap s.used_pan_addr (sym same) ∙ empty)
      ]

  pub set_loop-full :
      (k d : ℕ) (free : Option ℕ)
      → d < panid_table_size
      → panid_table_size ≤ k + d
      → let out = set_loop k s pan_id h ((h + d) % panid_table_size) free in
        out.0 ≡ none
        → out.1 ≡ none
        → (free ≡ none)
          × ((e : ℕ)
              → d ≤ e
              → e < panid_table_size
              → s.used_pan_addr ((h + e) % panid_table_size) ≡ true)
  unfolding set_loop
  set_loop-full zero d free below fuel gone full = absurd (omega arith)
  set_loop-full (suc k) d free below fuel gone full =
      let i = (h + d) % panid_table_size in
      let next = (i + 1) % panid_table_size in
      let onward : next ≡ (h + (d + 1)) % panid_table_size = omega arith in
      elim (Bool-cases (has_pan_id s pan_id i)) [
        | inl found ↦ absurd (some-none i (rw found at gone))
        | inr missed ↦ elim (Bool-cases (next == h)) [
          | inl end ↦
              let (empty, used) = free_none (s.used_pan_addr i) i free (rw (missed, end) at full) in
              (
                empty,
                λ e from inside. elim (dec_lt d e) [
                  | yes later ↦ let at_h : next ≡ h = ground arith in absurd (omega arith)
                  | no here ↦
                      let same : e ≡ d = omega arith in
                      ap (λ x. s.used_pan_addr ((h + x) % panid_table_size)) same ∙ used
                ],
              )
          | inr more ↦
              let free' = if s.used_pan_addr i then free else some i in
              let (rest, all) =
                set_loop-full k (d + 1) free' (not_last d next below more onward) (omega arith)
                  (ap (λ x. (set_loop k s pan_id h x free').0) (sym onward)
                    ∙ (rw (missed, more) at gone))
                  (ap (λ x. (set_loop k s pan_id h x free').1) (sym onward)
                    ∙ (rw (missed, more) at full)) in
              let (empty, used) = free_none (s.used_pan_addr i) i free rest in
              (
                empty,
                λ e from inside. elim (dec_lt d e) [
                  | yes later ↦ all e (omega arith) inside
                  | no here ↦
                      let same : e ≡ d = omega arith in
                      ap (λ x. s.used_pan_addr ((h + x) % panid_table_size)) same ∙ used
                ],
              )
        ]
      ]
    where
      not_last :
          (d next : ℕ)
          → d < panid_table_size
          → (next == h) ≡ false
          → next ≡ (h + (d + 1)) % panid_table_size
          → d + 1 < panid_table_size
      not_last d next below more onward =
          let apart : next ≢ h = ground arith in
          elim (dec_lt (d + 1) panid_table_size) [ yes p ↦ p | no p ↦ absurd (apart (omega arith)) ]
