-- ===== src/Pool.antt =====
-- The pool of packet buffers, common/zb_bufpool.c and common/zb_bufpool_init.c: the free list with its
-- limit for each direction, and the callbacks that wait for a buffer. A buffer is known by its
-- reference, a list by the sequence of its elements; the header is the one of 32-bit builds, where the
-- link of the free list does not cover `is_in_buf`.
pub mod Taken
pub mod Valid
pub mod Limits
pub mod Waiting
use zboss.Base.{
  ℕ, zero, suc, ◌+◌, ◌-◌, ◌%◌, Bool, true, false, ◌&&◌, ◌||◌, not, ltb, ◌==◌, if◌then◌else◌, update,
  List, [], ◌∷◌, ◌++◌, Option, none, some,
}
use zboss.Alarm.{Ret, ok}
use zboss.Ring.{Ring}
use zboss.Callbacks.{CbEnt, schedule_callback}

-- ZB_IOBUF_POOL_SIZE
abbrev pub iobuf_pool_size : ℕ
iobuf_pool_size = 16

-- ZB_BUFS_LIMIT
abbrev pub bufs_limit : ℕ
bufs_limit = 8

-- The fields of `bpool` and `sched` that play a part: `bufs_allocated[1]` and `[0]`, the direction of a
-- buffer, the callbacks that wait for one, how many entries are left for more of them, and the ring
-- of immediate callbacks.
pub record Pool : Type 0 where
  pub free : List ℕ
  pub allocated_in : ℕ
  pub allocated_out : ℕ
  pub is_in_buf : ℕ → Bool
  pub inbuf_queue : List ℕ
  pub outbuf_queue : List ℕ
  pub buf_freelist : ℕ
  pub rx_need_buf : Bool
  pub cb_q : Ring CbEnt

-- `while (i--)` of `zb_init_buffers` from the buffer `p` on.
unfoldable pub link_loop : ℕ → ℕ → List ℕ
link_loop zero p = p ∷ []
link_loop (suc i) p = p ∷ link_loop i (p + 1)

-- `zb_init_buffers`, which does nothing when the free list has a head.
unfoldable pub init_buffers : Pool → List ℕ → Pool
unfolding link_loop
init_buffers s [] = record s { free = link_loop (iobuf_pool_size - 1) 0 }
init_buffers s (b ∷ bs) = s

abbrev pub allocated : Pool → Bool → ℕ
allocated s is_in = if is_in then s.allocated_in else s.allocated_out

abbrev pub queue : Pool → Bool → List ℕ
queue s is_in = if is_in then s.inbuf_queue else s.outbuf_queue

-- A store to `bufs_allocated[is_in]`, and one to the queue of a direction.
unfoldable pub set_allocated : Pool → Bool → ℕ → Pool
set_allocated s true n = record s { allocated_in = n }
set_allocated s false n = record s { allocated_out = n }

unfoldable pub set_queue : Pool → Bool → List ℕ → Pool
set_queue s true q = record s { inbuf_queue = q }
set_queue s false q = record s { outbuf_queue = q }

-- `zb_get_buf` below the limit: the head of the free list, or NULL.
unfoldable pub take_head : Pool → Bool → List ℕ → Option ℕ × Pool
unfolding set_allocated
take_head s is_in [] = (none, s)
take_head s is_in (b ∷ bs) = (
  some b,
  set_allocated (record s { free = bs; is_in_buf = update s.is_in_buf b is_in }) is_in
      ((allocated s is_in + 1) % 256),
)

-- `zb_get_buf`
unfoldable pub get_buf : Pool → Bool → Option ℕ × Pool
unfolding take_head
get_buf s is_in = if ltb (allocated s is_in) bufs_limit then take_head s is_in s.free else (none, s)

-- `ZB_SCHEDULE_CALLBACK(func, ZB_REF_FROM_BUF(buf))`
unfoldable pub schedule_buf : Pool → ℕ → ℕ → Ret × Pool
schedule_buf s func buf =
    let (ret, q) = schedule_callback s.cb_q (record { func = func; param = buf }) in
    (ret, record s { cb_q = q })

-- The callback waits, if there is an entry for it; none stands for RET_ERROR.
unfoldable pub wait_buf : Pool → ℕ → Bool → Option Ret × Pool
unfolding set_queue
wait_buf s callback is_in = if s.buf_freelist == 0 then (none, s) else (
  some ok,
  set_queue (record s { buf_freelist = s.buf_freelist - 1 }) is_in (queue s is_in ++ callback ∷ []),
)

-- `zb_get_buf_delayed`
unfoldable pub get_buf_delayed : Pool → ℕ → Bool → Option Ret × Pool
unfolding get_buf schedule_buf wait_buf
get_buf_delayed s callback is_in =
    let (buf, s') = get_buf s is_in in
    elim buf [
      | some b ↦ let (ret, s'') = schedule_buf s' callback b in (some ret, s'')
      | none ↦ wait_buf s' callback is_in
    ]

-- ZB_SL_LIST_CUT_HEAD on the queue of the direction.
unfoldable pub cut_queue : Pool → Bool → List ℕ → Option ℕ × Pool
unfolding set_queue
cut_queue s is_in [] = (none, s)
cut_queue s is_in (func ∷ funcs) = (some func, set_queue s is_in funcs)

-- The first waiting callback is scheduled with the buffer that `zb_get_buf` gives, and its entry is free
-- again. The C has no code for NULL here.
unfoldable pub hand_over : ℕ → Option ℕ × Pool → Pool
unfolding schedule_buf
hand_over func (none, s) = s
hand_over func (some b, s) =
    let scheduled = (schedule_buf s func b).1 in
    record scheduled { buf_freelist = scheduled.buf_freelist + 1 }

-- `if (ent)`
unfoldable pub serve : Bool → Option ℕ × Pool → Pool
unfolding get_buf hand_over
serve is_in (none, s) = s
serve is_in (some func, s) = hand_over func (get_buf s is_in)

-- The buffer is on the free list.
unfoldable pub is_free : ℕ → List ℕ → Bool
is_free b [] = false
is_free b (x ∷ free) = (x == b) || is_free b free

-- `zb_free_buf` of a buffer that is not on the free list.
unfoldable pub give_back : Pool → ℕ → Pool
unfolding set_allocated cut_queue serve
give_back s b =
    let is_in = s.is_in_buf b in
    let freed =
      set_allocated (record s { free = b ∷ s.free }) is_in ((allocated s is_in + 255) % 256) in
    if is_in && s.rx_need_buf
    then freed
    else serve is_in (cut_queue freed is_in (queue freed is_in))

-- `zb_free_buf`. A buffer that is on the free list already would be linked into a circle there, which no
-- sequence stands for: the result is none.
unfoldable pub free_buf : Pool → ℕ → Option Pool
unfolding give_back is_free
free_buf s b = if is_free b s.free then none else some (give_back s b)
