-- ===== src/Tests/Pool.antt =====
-- A concrete pool of buffers with a waiting callback.
use zboss.Base.{◌≡◌, refl, arith, true, false, some, none, [], ◌∷◌}
use zboss.Callbacks.{CbEnt}
use zboss.Pool.{Pool, init_buffers, get_buf, is_free, give_back, free_buf}
use zboss.Pool.Taken.{count, has_direction, is_taken, taken, is_free_list}
use zboss.Ring.Fifo.{Holds}
use zboss.Pool.Valid.{IsValid}
use zboss.Pool.Limits.{rests, continues, gets, frees, init_buffers-IsValid, PoolSteps-IsValid}
use zboss.Pool.Waiting.{Served, free_buf-Served}

abbrev no_call : CbEnt
no_call = record { func = 0; param = 0 }

abbrev fresh : Pool
fresh = record {
  free = [];
  allocated_in = 0;
  allocated_out = 0;
  is_in_buf = λ b. false;
  inbuf_queue = [];
  outbuf_queue = [];
  buf_freelist = 4;
  rx_need_buf = false;
  cb_q = record { ring_buf = no_call ∷ no_call ∷ []; read_i = 0; write_i = 0; written = 0 };
}

-- An input buffer is handed out and freed.
abbrev ready : Pool
ready = init_buffers fresh []

abbrev one_taken : Pool
one_taken = (get_buf ready true).1

freed_once : free_buf one_taken 0 ≡ some (give_back one_taken 0)
unfolding free_buf is_free get_buf init_buffers
freed_once = refl

PoolSteps-IsValid_example : IsValid (give_back one_taken 0)
PoolSteps-IsValid_example =
    PoolSteps-IsValid ready (give_back one_taken 0)
      (continues one_taken (give_back one_taken 0) (continues ready one_taken rests (gets true))
        (frees 0 (give_back one_taken 0) (omega arith) freed_once))
      (init_buffers-IsValid fresh refl refl)

-- The output buffers 8 to 15 are taken, and the callback 700 waits for one.
abbrev busy : Pool
busy = record fresh {
  free = 0 ∷ 1 ∷ 2 ∷ 3 ∷ 4 ∷ 5 ∷ 6 ∷ 7 ∷ [];
  allocated_out = 8;
  outbuf_queue = 700 ∷ [];
  buf_freelist = 3;
}

busy-IsValid : IsValid busy
unfolding is_free_list taken count is_taken is_free has_direction
busy-IsValid = record {
  free_list = refl;
  ins = refl;
  outs = refl;
  in_limit = omega arith;
  out_limit = omega arith;
}

nothing_pending : Holds busy.cb_q []
nothing_pending = record {
  valid = record {
    room = omega arith;
    small = omega arith;
    read_in = omega arith;
    count_in = omega arith;
    behind = refl;
  };
  count = refl;
  entries = tt;
}

free_buf-Served_example : (t : Pool) × (free_buf busy 9 ≡ some t) × Served busy 9 700 [] [] t
unfolding is_free
free_buf-Served_example =
    free_buf-Served busy 9 700 [] [] busy-IsValid nothing_pending (omega arith) refl refl refl

-- A buffer that is free already.
freed_twice : free_buf busy 3 ≡ none
unfolding free_buf is_free
freed_twice = refl
