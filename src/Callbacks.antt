-- ===== src/Callbacks.antt =====
-- The immediate callbacks of common/zb_scheduler.c: a ring of pending calls that the scheduler's loop
-- empties. What a callback does is not the scheduler's code: `call` is a parameter, which changes the
-- state `W` of the rest of the program and names the callbacks that it schedules, in order.
pub mod Fifo
pub mod Loop
pub mod Ends
use zboss.Base.{ℕ, zero, suc, Bool, true, false, if◌then◌else◌, List, [], ◌∷◌, Option, none, some}
use zboss.Ring.{Ring, put_reserve, fill, flush_put, peek, flush_get}
use zboss.Alarm.{Ret, ok, overflow}

-- `zb_cb_q_ent_t`; a callback is known by its address.
pub record CbEnt : Type 0 where
  pub func : ℕ
  pub param : ℕ

-- `zb_schedule_callback` on the reserved slot, or on NULL.
unfoldable pub put_reserved : Ring CbEnt → CbEnt → Option ℕ → Ret × Ring CbEnt
put_reserved cb_q ent none = (overflow, cb_q)
put_reserved cb_q ent (some slot) = (ok, flush_put (fill cb_q slot ent))

-- `zb_schedule_callback`; `zb_schedule_tx_cb` is the same on the ring `mac_tx_q`.
unfoldable pub schedule_callback : Ring CbEnt → CbEnt → Ret × Ring CbEnt
schedule_callback cb_q ent = put_reserved cb_q ent (put_reserve cb_q)

-- The calls of `zb_schedule_callback` that a callback makes.
unfoldable pub schedule_all : Ring CbEnt → List CbEnt → Ring CbEnt
schedule_all cb_q [] = cb_q
schedule_all cb_q (ent ∷ ents) = schedule_all (schedule_callback cb_q ent).1 ents

-- The outcome of the loop over the ring: the callbacks called, whether it has come to its end, the
-- pending ones and the rest of the state.
pub record Run (Q W : Type 0) : Type 0 where
  pub calls : List CbEnt
  pub ended : Bool
  pub queue : Q
  pub world : W

module _ {W : Type 0} (interrupt : W → Bool) (call : CbEnt → W → W × List CbEnt) where
  -- `while ((ent = ZB_RING_BUFFER_PEEK(&ZG->sched.cb_q)) != NULL)` of `zb_sched_loop_iteration`;
  -- `interrupt` is the test of the transceiver's interrupt and of a free input buffer. The entry is
  -- taken off the ring after its callback has returned.
  unfoldable pub run_callbacks : ℕ → Ring CbEnt → W → Run (Ring CbEnt) W
  run_callbacks zero cb_q w = record { calls = []; ended = false; queue = cb_q; world = w }
  run_callbacks (suc k) cb_q w = elim (peek cb_q) [
    | none ↦ record { calls = []; ended = true; queue = cb_q; world = w }
    | some ent ↦
        let (w', scheduled) = call ent w in
        let rest = run_callbacks k (flush_get (schedule_all cb_q scheduled)) w' in
        if interrupt w
        then record { calls = []; ended = true; queue = cb_q; world = w }
        else record rest { calls = ent ∷ rest.calls }
  ]
