-- ===== src/Pool/Waiting.antt =====
-- A freed buffer goes to the first callback that waits for one of its direction.
use zboss.Base.{
  ℕ, ◌+◌, ◌%◌, ◌≤◌, ◌<◌, ◌≡◌, refl, sym, ap, ◌∙◌, arith, subst, Bool, true, false, ◌&&◌, ltb, List,
  some, ◌∷◌, [], ◌++◌, length,
}
use zboss.Ring.{capacity}
use zboss.Ring.Fifo.{Holds}
use zboss.Callbacks.{CbEnt, schedule_callback}
use zboss.Callbacks.Fifo.{append, schedule_callback-Holds}
use zboss.Pool.{
  Pool, bufs_limit, allocated, queue, set_allocated, set_queue, take_head, get_buf, schedule_buf,
  cut_queue, hand_over, serve, is_free, give_back, free_buf, iobuf_pool_size,
}
use zboss.Pool.Valid.{IsValid, taken-allocated}

-- What has become of the state when the callback has got the buffer.
abbrev Handed : Pool → Bool → ℕ → ℕ → List ℕ → Pool → Type 0
Handed s is_in b func funcs s' =
    (s'.cb_q ≡ (schedule_callback s.cb_q (record { func = func; param = b })).1)
    × (queue s' is_in ≡ funcs)
    × (s'.free ≡ s.free)
    × (allocated s' is_in ≡ allocated s is_in)
    × (s'.buf_freelist ≡ s.buf_freelist + 1)

get_buf_below :
    (s : Pool) (is_in : Bool)
    → allocated s is_in < bufs_limit
    → get_buf s is_in ≡ take_head s is_in s.free
unfolding get_buf
get_buf_below s is_in h =
    let below : ltb (allocated s is_in) bufs_limit ≡ true = ground arith in rw below refl

serve-Handed :
    (s : Pool) (is_in : Bool) (b func : ℕ) (funcs : List ℕ)
    → 0 < allocated s is_in
    → allocated s is_in ≤ bufs_limit
    → let freed =
        set_allocated (record s { free = b ∷ s.free }) is_in ((allocated s is_in + 255) % 256) in
      Handed s is_in b func funcs (serve is_in (cut_queue freed is_in (func ∷ funcs)))
unfolding serve cut_queue set_queue take_head set_allocated hand_over schedule_buf
serve-Handed s true b func funcs some_taken limit =
    let freed =
      set_allocated (record s { free = b ∷ s.free }) true ((s.allocated_in + 255) % 256) in
    let left = (cut_queue freed true (func ∷ funcs)).1 in
    subst (Handed s true b func funcs)
      (sym (ap (hand_over func) (get_buf_below left true (omega arith))))
      (refl, refl, refl, omega arith, refl)
serve-Handed s false b func funcs some_taken limit =
    let freed =
      set_allocated (record s { free = b ∷ s.free }) false ((s.allocated_out + 255) % 256) in
    let left = (cut_queue freed false (func ∷ funcs)).1 in
    subst (Handed s false b func funcs)
      (sym (ap (hand_over func) (get_buf_below left false (omega arith))))
      (refl, refl, refl, omega arith, refl)

freed-queue :
    (s : Pool) (b : ℕ) (is_in : Bool)
    → queue
        (set_allocated (record s { free = b ∷ s.free }) is_in ((allocated s is_in + 255) % 256))
        is_in
      ≡ queue s is_in
unfolding set_allocated
freed-queue s b true = refl
freed-queue s b false = refl

-- What `zb_free_buf` has done when a callback was waiting, where `xs` were the pending callbacks.
pub record Served (s : Pool) (b func : ℕ) (funcs : List ℕ) (xs : List CbEnt) (t : Pool)
    : Type 0 where
  pub scheduled :
      length xs < capacity s.cb_q → Holds t.cb_q (xs ++ record { func = func; param = b } ∷ [])
  pub dropped : capacity s.cb_q ≤ length xs → Holds t.cb_q xs
  pub waiting : queue t (s.is_in_buf b) ≡ funcs
  pub free_list : t.free ≡ s.free
  pub count : allocated t (s.is_in_buf b) ≡ allocated s (s.is_in_buf b)
  pub entries : t.buf_freelist ≡ s.buf_freelist + 1

handed-Served :
    (s : Pool) (b func : ℕ) (funcs : List ℕ) (xs : List CbEnt) (t : Pool)
    → Holds s.cb_q xs
    → Handed s (s.is_in_buf b) b func funcs t
    → Served s b func funcs xs t
unfolding append
handed-Served s b func funcs xs t held (q, waiting, free_list, count, entries) =
    let ent : CbEnt = record { func = func; param = b } in
    let (ret, now, cap) = schedule_callback-Holds s.cb_q ent xs held in
    record {
      scheduled = λ room.
          let test : ltb (length xs) (capacity s.cb_q) ≡ true = ground arith in
          subst (λ c. Holds c (xs ++ ent ∷ [])) (sym q) (rw test at now);
      dropped = λ full.
          let test : ltb (length xs) (capacity s.cb_q) ≡ false = ground arith in
          subst (λ c. Holds c xs) (sym q) (rw test at now);
      waiting = waiting;
      free_list = free_list;
      count = count;
      entries = entries;
    }

give_back-Handed :
    (s : Pool) (b func : ℕ) (funcs : List ℕ)
    → IsValid s
    → 0 < allocated s (s.is_in_buf b)
    → (s.is_in_buf b && s.rx_need_buf) ≡ false
    → queue s (s.is_in_buf b) ≡ func ∷ funcs
    → Handed s (s.is_in_buf b) b func funcs (give_back s b)
unfolding give_back
give_back-Handed s b func funcs valid some_taken free_to_serve waiting =
    let is_in = s.is_in_buf b in
    let freed =
      set_allocated (record s { free = b ∷ s.free }) is_in ((allocated s is_in + 255) % 256) in
    let same : serve is_in (cut_queue freed is_in (queue freed is_in))
        ≡ serve is_in (cut_queue freed is_in (func ∷ funcs)) =
      ap (λ q. serve is_in (cut_queue freed is_in q)) (freed-queue s b is_in ∙ waiting) in
    rw free_to_serve (
      subst (Handed s is_in b func funcs) (sym same)
        (serve-Handed s is_in b func funcs some_taken (small is_in)))
  where
    small : (is_in : Bool) → allocated s is_in ≤ bufs_limit
    small true = valid.in_limit
    small false = valid.out_limit

-- In a valid state with the callbacks `xs` pending, let a buffer of the pool that is not free be freed,
-- let `rx_need_buf` not claim it, and let callbacks wait for its direction. Then `zb_free_buf` takes the
-- first of them off the queue and its entry is free again, and the free list and the count of allocated
-- buffers are as before. If the ring has room, the callback is scheduled behind the pending ones, with
-- this very buffer; if it is full, the callback is dropped, although the buffer counts as allocated.
pub free_buf-Served :
    (s : Pool) (b func : ℕ) (funcs : List ℕ) (xs : List CbEnt)
    → IsValid s
    → Holds s.cb_q xs
    → b < iobuf_pool_size
    → is_free b s.free ≡ false
    → (s.is_in_buf b && s.rx_need_buf) ≡ false
    → queue s (s.is_in_buf b) ≡ func ∷ funcs
    → (t : Pool) × (free_buf s b ≡ some t) × Served s b func funcs xs t
unfolding free_buf
free_buf-Served s b func funcs xs valid held below out free_to_serve waiting =
    let some_taken : 0 < allocated s (s.is_in_buf b) =
      omega (arith, taken-allocated s b below out valid) in
    (
      give_back s b,
      rw out refl,
      handed-Served s b func funcs xs (give_back s b) held
          (give_back-Handed s b func funcs valid some_taken free_to_serve waiting),
    )
