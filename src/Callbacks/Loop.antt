-- ===== src/Callbacks/Loop.antt =====
-- The loop over the immediate callbacks, and the same loop over a bounded sequence of callbacks.
use zboss.Base.{
  ℕ, zero, suc, ◌≡◌, refl, ap, subst, Bool, true, false, List, [], ◌∷◌, ◌++◌, length, if◌then◌else◌,
  ltb, Bool-cases, inl, inr,
}
use zboss.Ring.{Ring, capacity, flush_get}
use zboss.Ring.Fifo.{Holds, peek_lem, peek_empty, flush_get-Holds}
use zboss.Callbacks.{CbEnt, Run, schedule_all, run_callbacks}
use zboss.Callbacks.Fifo.{append, append_all, schedule_all-Holds}

-- Everything but the first.
abbrev pub rest_of : List CbEnt → List CbEnt
rest_of [] = []
rest_of (x ∷ xs) = xs

module _ {W : Type 0} (interrupt : W → Bool) (call : CbEnt → W → W × List CbEnt) (cap : ℕ) where
  -- First in, first out: the first of the pending callbacks runs, those that it schedules go behind
  -- the others as long as fewer than `cap` are pending, the running one among them.
  unfoldable pub run_list : ℕ → List CbEnt → W → Run (List CbEnt) W
  run_list zero xs w = record { calls = []; ended = false; queue = xs; world = w }
  run_list (suc k) [] w = record { calls = []; ended = true; queue = []; world = w }
  run_list (suc k) (x ∷ xs) w =
      let (w', scheduled) = call x w in
      let rest = run_list k (rest_of (append_all cap (x ∷ xs) scheduled)) w' in
      if interrupt w
      then record { calls = []; ended = true; queue = x ∷ xs; world = w }
      else record rest { calls = x ∷ rest.calls }

-- The two loops agree in all but the representation of the queue.
pub record Agrees {W : Type 0} (r : Run (Ring CbEnt) W) (l : Run (List CbEnt) W) : Type 0 where
  pub same_calls : r.calls ≡ l.calls
  pub same_ended : r.ended ≡ l.ended
  pub same_world : r.world ≡ l.world
  pub held : Holds r.queue l.queue

append_all-keeps :
    (cap : ℕ) (x : CbEnt) (xs ents : List CbEnt)
    → append_all cap (x ∷ xs) ents ≡ x ∷ rest_of (append_all cap (x ∷ xs) ents)
unfolding append_all append
append_all-keeps cap x xs [] = refl
append_all-keeps cap x xs (e ∷ ents) = elim (Bool-cases (ltb (length (x ∷ xs)) cap)) [
  | inl room ↦ rw room (append_all-keeps cap x (xs ++ e ∷ []) ents)
  | inr full ↦ rw full (append_all-keeps cap x xs ents)
]

module _ {W : Type 0} (interrupt : W → Bool) (call : CbEnt → W → W × List CbEnt) where
  -- The loop over the ring calls the same callbacks in the same order as the loop over the sequence
  -- that the ring stands for, ends when that does, and leaves the same state and pending callbacks.
  pub run_callbacks-Agrees :
      (k : ℕ) (cb_q : Ring CbEnt) (xs : List CbEnt) (w : W)
      → Holds cb_q xs
      → Agrees
          (run_callbacks interrupt call k cb_q w)
          (run_list interrupt call (capacity cb_q) k xs w)
  unfolding run_callbacks run_list flush_get
  run_callbacks-Agrees zero cb_q xs w h = record {
    same_calls = refl;
    same_ended = refl;
    same_world = refl;
    held = h;
  }
  run_callbacks-Agrees (suc k) cb_q [] w h =
      rw (run_callbacks, peek_empty cb_q h)
        (record { same_calls = refl; same_ended = refl; same_world = refl; held = h })
  run_callbacks-Agrees (suc k) cb_q (x ∷ xs) w h =
      let (w', scheduled) = call x w in
      rw (run_callbacks, peek_lem cb_q x xs h)
        (elim (Bool-cases (interrupt w)) [
          | inl stop ↦
              rw stop (record { same_calls = refl; same_ended = refl; same_world = refl; held = h })
          | inr go ↦
              let (held, cap) = schedule_all-Holds (call x w).1 cb_q (x ∷ xs) h in
              let ring = flush_get (schedule_all cb_q (call x w).1) in
              let xs' = rest_of (append_all (capacity cb_q) (x ∷ xs) (call x w).1) in
              let next = flush_get-Holds _ x xs' (
                subst (Holds (schedule_all cb_q (call x w).1))
                  (append_all-keeps (capacity cb_q) x xs (call x w).1) held) in
              let rest = run_callbacks-Agrees k ring xs' (call x w).0 next in
              let rest' =
                subst
                  (λ c.
                    Agrees (run_callbacks interrupt call k ring (call x w).0)
                      (run_list interrupt call c k xs' (call x w).0))
                  cap rest in
              rw go (record {
                same_calls = ap (◌∷◌ x) rest'.same_calls;
                same_ended = rest'.same_ended;
                same_world = rest'.same_world;
                held = rest'.held;
              })
        ])
