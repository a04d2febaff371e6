-- ===== src/Callbacks/Ends.antt =====
-- The loop over the immediate callbacks comes to its end when they schedule no more than they may.
use zboss.Base.{
  ℕ, zero, suc, ◌+◌, ◌<◌, ◌≤◌, ◌≡◌, refl, ◌∙◌, arith, Bool, true, List, [], ◌∷◌, ◌++◌, length,
  length-append, ltb, Bool-cases, inl, inr,
}
use zboss.Ring.{Ring}
use zboss.Ring.Fifo.{Holds}
use zboss.Callbacks.{CbEnt, run_callbacks}
use zboss.Callbacks.Fifo.{append, append_all}
use zboss.Callbacks.Loop.{rest_of, run_list, run_callbacks-Agrees}

length-append_all :
    (cap : ℕ) (xs ents : List CbEnt) → length (append_all cap xs ents) ≤ length xs + length ents
unfolding append_all append
length-append_all cap xs [] = omega arith
length-append_all cap xs (e ∷ ents) = elim (Bool-cases (ltb (length xs) cap)) [
  | inl room ↦
      rw room (omega (arith, length-append_all cap (xs ++ e ∷ []) ents, length-append xs (e ∷ [])))
  | inr full ↦ rw full (omega (arith, length-append_all cap xs ents))
]

length-rest_of : (x : CbEnt) (xs : List CbEnt) (n : ℕ) → length xs ≤ suc n → length (rest_of xs) ≤ n
length-rest_of x [] n h = omega arith
length-rest_of x (y ∷ xs) n h = omega arith

module _ {W : Type 0} (interrupt : W → Bool) (call : CbEnt → W → W × List CbEnt) (left : W → ℕ)
    (budget : (e : CbEnt) (w : W) → length (call e w).1 + left (call e w).0 ≤ left w) where
  run_list-ended :
      (cap k : ℕ) (xs : List CbEnt) (w : W)
      → length xs + left w < k
      → (run_list interrupt call cap k xs w).ended ≡ true
  unfolding run_list
  run_list-ended cap zero xs w h = ground arith
  run_list-ended cap (suc k) [] w h = refl
  run_list-ended cap (suc k) (x ∷ xs) w h =
      let (w', ents) = call x w in
      let b = budget x w in
      let grown = length-append_all cap (x ∷ xs) ents in
      let shorter : length (rest_of (append_all cap (x ∷ xs) ents)) ≤ length xs + length ents =
        length-rest_of x (append_all cap (x ∷ xs) ents) (length xs + length ents) (omega arith) in
      let rest = run_list-ended cap k (rest_of (append_all cap (x ∷ xs) ents)) w' (omega arith) in
      elim (Bool-cases (interrupt w)) [ inl stop ↦ rw stop refl | inr go ↦ rw go rest ]

  -- Let `left w` bound how many callbacks can still be scheduled from the state `w` on: each callback
  -- uses up what it schedules. Then as many rounds as there are pending callbacks and callbacks to
  -- come, and one more, take the loop to its end.
  pub run_callbacks-ended :
      (k : ℕ) (cb_q : Ring CbEnt) (xs : List CbEnt) (w : W)
      → Holds cb_q xs
      → length xs + left w < k
      → (run_callbacks interrupt call k cb_q w).ended ≡ true
  run_callbacks-ended k cb_q xs w h enough =
      (run_callbacks-Agrees interrupt call k cb_q xs w h).same_ended
      ∙ run_list-ended _ k xs w enough
