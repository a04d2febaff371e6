-- ===== src/Callbacks/Fifo.antt =====
-- Scheduling a callback appends it to the pending ones, as long as there is room.
use zboss.Base.{
  ℕ, ◌≡◌, refl, subst, ◌∙◌, arith, List, [], ◌∷◌, ◌++◌, length, length-set, if◌then◌else◌, ltb,
  Bool-cases, inl, inr, some, none,
}
use zboss.Ring.{Ring, capacity, put_reserve, fill, flush_put}
use zboss.Ring.Fifo.{Holds, put_reserve_lem, flush_put-Holds}
use zboss.Alarm.{ok, overflow}
use zboss.Callbacks.{CbEnt, put_reserved, schedule_callback, schedule_all}

-- A bounded sequence of callbacks: one that does not fit is dropped.
unfoldable pub append : ℕ → List CbEnt → CbEnt → List CbEnt
append cap xs ent = if ltb (length xs) cap then xs ++ ent ∷ [] else xs

unfoldable pub append_all : ℕ → List CbEnt → List CbEnt → List CbEnt
append_all cap xs [] = xs
append_all cap xs (ent ∷ ents) = append_all cap (append cap xs ent) ents

-- `zb_schedule_callback` appends the callback to the pending ones and returns RET_OK, or, when as many
-- as the capacity are pending, returns RET_OVERFLOW and leaves the ring alone.
pub schedule_callback-Holds :
    (cb_q : Ring CbEnt) (ent : CbEnt) (xs : List CbEnt)
    → Holds cb_q xs
    → let (ret, q) = schedule_callback cb_q ent in
      (ret ≡ (if ltb (length xs) (capacity cb_q) then ok else overflow))
      × Holds q (append (capacity cb_q) xs ent)
      × (capacity q ≡ capacity cb_q)
unfolding schedule_callback put_reserved append fill flush_put
schedule_callback-Holds cb_q ent xs h = elim (Bool-cases (ltb (length xs) (capacity cb_q))) [
  | inl room ↦
      let slot : put_reserve cb_q ≡ some cb_q.write_i = put_reserve_lem cb_q xs h ∙ rw room refl in
      rw (slot, room)
        (
          refl,
          flush_put-Holds cb_q xs h ent (ground arith),
          length-set cb_q.ring_buf cb_q.write_i ent,
        )
  | inr full ↦
      let slot : put_reserve cb_q ≡ none = put_reserve_lem cb_q xs h ∙ rw full refl in
      rw (slot, full) (refl, h, refl)
]

pub schedule_all-Holds :
    (ents : List CbEnt) (cb_q : Ring CbEnt) (xs : List CbEnt)
    → Holds cb_q xs
    → Holds (schedule_all cb_q ents) (append_all (capacity cb_q) xs ents)
      × (capacity (schedule_all cb_q ents) ≡ capacity cb_q)
unfolding schedule_all append_all
schedule_all-Holds [] cb_q xs h = (h, refl)
schedule_all-Holds (ent ∷ ents) cb_q xs h =
    let (ret, held, cap) = schedule_callback-Holds cb_q ent xs h in
    let (rest, cap') = schedule_all-Holds ents (schedule_callback cb_q ent).1 _ held in
    (
      subst
          (λ c.
            Holds (schedule_all (schedule_callback cb_q ent).1 ents)
              (append_all c (append (capacity cb_q) xs ent) ents))
          cap rest,
      cap' ∙ cap,
    )
