-- ===== src/Bufs/Contents.antt =====
-- What the operations of a packet buffer do to its contents.
use zboss.Base.{
  ℕ, ◌+◌, ◌-◌, ◌%◌, ◌≤◌, ◌<◌, ◌≡◌, ap, ap₂, ◌∙◌, arith, ltb, Bool-cases, inl, inr, List, length,
  slice, memmove, slice-memmove, slice-memcpy, slice_before,
}
use zboss.Bufs.{
  Buf, io_buf_size, smart_alloc_left, cut_left, get_buf_tail, clear_tail, assign_param,
}

-- The data lies within the buffer.
abbrev pub IsValid : Buf → Type 0
IsValid b = b.data_offset + b.len ≤ io_buf_size

-- The data of the current layer.
unfoldable pub contents : Buf → List ℕ
contents b = slice b.buf b.data_offset b.len

-- When the data lies within the buffer and the space is there, as asserted, `zb_buf_smart_alloc_left`
-- makes the data longer by the size, keeps it within the buffer, and cutting the size off again with
-- `zb_buf_cut_left` gives the same contents as before.
pub cut_left-smart_alloc_left :
    (b : Buf) (size : ℕ)
    → IsValid b
    → size + b.len < io_buf_size
    → IsValid (smart_alloc_left b size)
      × ((smart_alloc_left b size).len ≡ b.len + size)
      × (contents (cut_left (smart_alloc_left b size) size) ≡ contents b)
unfolding smart_alloc_left cut_left contents
cut_left-smart_alloc_left b size valid room = elim (Bool-cases (ltb b.data_offset size)) [
  | inl short ↦
      let lack : b.data_offset < size = ground arith in
      rw short (
        omega arith,
        omega arith,
        ap₂ (slice _) (omega arith) (omega arith)
            ∙ slice-memmove b.buf (b.data_offset + (size - b.data_offset)) b.data_offset b.len,
      )
  | inr wide ↦
      let enough : size ≤ b.data_offset = ground arith in
      rw wide (omega arith, omega arith, ap₂ (slice b.buf) (omega arith) (omega arith))
]

-- When the data lies within the buffer and leaves room for the parameter, as asserted,
-- `zb_buf_assign_param` keeps the contents, keeps them clear of the tail, and puts the parameter into
-- the tail, where `zb_get_buf_tail` finds it.
pub assign_param-contents :
    (b : Buf) (param : List ℕ)
    → IsValid b
    → b.len + length param ≤ io_buf_size
    → (contents (assign_param b param) ≡ contents b)
      × (slice (assign_param b param).buf (get_buf_tail (length param)) (length param) ≡ param)
      × ((assign_param b param).data_offset + b.len ≤ get_buf_tail (length param))
unfolding assign_param clear_tail contents get_buf_tail
assign_param-contents b param valid room =
    let end = b.data_offset + b.len + length param in
    let delta = end - io_buf_size in
    elim (Bool-cases (ltb io_buf_size end)) [
      | inl over ↦
          let lack : io_buf_size < end = ground arith in
          let at : (b.data_offset + 256 - delta) % 256 ≡ b.data_offset - delta = omega arith in
          rw over (
            slice_before _ _ _ _ param (omega arith)
                ∙ ap
                    (λ k. slice (memmove b.buf (b.data_offset - delta) b.data_offset b.len) k b.len)
                    at
                ∙ slice-memmove b.buf (b.data_offset - delta) b.data_offset b.len,
            slice-memcpy _ (io_buf_size - length param) param,
            omega arith,
          )
      | inr clear ↦
          let enough : end ≤ io_buf_size = ground arith in
          rw clear (
            slice_before b.buf _ _ _ param (omega arith),
            slice-memcpy b.buf (io_buf_size - length param) param,
            omega arith,
          )
    ]
