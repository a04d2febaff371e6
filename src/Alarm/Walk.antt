-- ===== src/Alarm/Walk.antt =====
-- The walk of `zb_schedule_alarm` along the queue splits it where the first later entry stands.
use zboss.Base.{
  ℕ, zero, suc, ◌≡◌, ◌<◌, refl, ap, arith, true, List, [], ◌∷◌, ◌++◌, Ptr, null, length, Bool-cases,
  inl, inr, if◌then◌else◌,
}
use zboss.Dlist.Rep.{first, Next, AllNonNull}
use zboss.Dlist.Insert.{test_ne}
use zboss.Time.{time_ge}
use zboss.Alarm.{walk}

module _ (run_time : Ptr → ℕ) (t : ℕ) where
  -- The entries at the front that are not later than `t`, and the others.
  unfoldable pub before : List Ptr → List Ptr
  before [] = []
  before (x ∷ xs) = if time_ge t (run_time x) then x ∷ before xs else []

  unfoldable pub after : List Ptr → List Ptr
  after [] = []
  after (x ∷ xs) = if time_ge t (run_time x) then after xs else x ∷ xs

  pub before-append-after : (xs : List Ptr) → before xs ++ after xs ≡ xs
  unfolding before after
  before-append-after [] = refl
  before-append-after (x ∷ xs) = elim (Bool-cases (time_ge t (run_time x))) [
    | inl h ↦ rw h (ap (◌∷◌ x) (before-append-after xs))
    | inr h ↦ rw h
  ]

  pub before-cons :
      (x : Ptr) (xs : List Ptr) → time_ge t (run_time x) ≡ true → before (x ∷ xs) ≡ x ∷ before xs
  unfolding before
  before-cons x xs h = rw h

  pub after-cons :
      (x : Ptr) (xs : List Ptr) → time_ge t (run_time x) ≡ true → after (x ∷ xs) ≡ after xs
  unfolding after
  after-cons x xs h = rw h

  -- With fuel for every entry and one more the walk ends at the first later entry, or at NULL.
  pub walk-after :
      (k : ℕ) (next : Ptr → Ptr) (xs : List Ptr)
      → length xs < k
      → Next next xs null
      → AllNonNull xs
      → walk k run_time next t (first xs null) ≡ first (after xs) null
  unfolding walk after
  walk-after zero next xs fuel h nn = absurd (omega arith)
  walk-after (suc k) next [] fuel h nn = refl
  walk-after (suc k) next (x ∷ xs) fuel h nn = elim (Bool-cases (time_ge t (run_time x))) [
    | inl e ↦ rw (test_ne x null nn.0, e, h.0) (walk-after k next xs (omega arith) h.1 nn.1)
    | inr e ↦ rw (test_ne x null nn.0, e)
  ]
