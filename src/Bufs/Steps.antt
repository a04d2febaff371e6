-- ===== src/Bufs/Steps.antt =====
-- What a layer may do with a packet buffer, as steps with the asserts for guards, and the invariant
-- that the data stays within the buffer.
use zboss.Base.{ℕ, ◌+◌, ◌≤◌, ◌<◌, arith, ltb, Bool-cases, inl, inr, List, length}
use zboss.Bufs.{
  Buf, io_buf_size, buf_reuse, initial_alloc, smart_alloc_left, smart_alloc_right, cut_left,
  cut_right, clear_tail, assign_param,
}
use zboss.Bufs.Contents.{IsValid, cut_left-smart_alloc_left}

-- One operation on a buffer.
pub data BufStep (b : Buf) : Buf → Type 0 where
  reuses : BufStep b (buf_reuse b)
  allocs : (size : ℕ) → size < io_buf_size → BufStep b (initial_alloc b size)
  grows_left : (size : ℕ) → size + b.len < io_buf_size → BufStep b (smart_alloc_left b size)
  grows_right :
      (size : ℕ)
      → size + b.len < io_buf_size
      → b.data_offset + b.len + size ≤ io_buf_size
      → BufStep b (smart_alloc_right b size).0
  cuts_left : (size : ℕ) → size ≤ b.len → BufStep b (cut_left b size)
  cuts_right : (size : ℕ) → size ≤ b.len → BufStep b (cut_right b size)
  assigns : (param : List ℕ) → b.len + length param ≤ io_buf_size → BufStep b (assign_param b param)

assign_param-IsValid :
    (b : Buf) (param : List ℕ)
    → IsValid b
    → b.len + length param ≤ io_buf_size
    → IsValid (assign_param b param)
unfolding assign_param clear_tail
assign_param-IsValid b param valid room =
    elim (Bool-cases (ltb io_buf_size (b.data_offset + b.len + length param))) [
      | inl over ↦
          let lack : io_buf_size < b.data_offset + b.len + length param = ground arith in
          rw over (omega arith)
      | inr clear ↦ rw clear valid
    ]

-- Every operation whose assert holds keeps the data within the buffer, where `zb_buf_smart_alloc_right`
-- is called with as much space behind the data.
pub step-IsValid : (b b' : Buf) → BufStep b b' → IsValid b → IsValid b'
unfolding buf_reuse initial_alloc smart_alloc_right cut_left cut_right
step-IsValid b b' reuses valid = omega arith
step-IsValid b b' (allocs size h) valid = omega arith
step-IsValid b b' (grows_left size h) valid = (cut_left-smart_alloc_left b size valid h).0
step-IsValid b b' (grows_right size h k) valid = omega arith
step-IsValid b b' (cuts_left size h) valid = omega arith
step-IsValid b b' (cuts_right size h) valid = omega arith
step-IsValid b b' (assigns param h) valid = assign_param-IsValid b param valid h
