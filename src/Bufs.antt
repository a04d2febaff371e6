-- ===== src/Bufs.antt =====
-- The packet buffers of common/zb_bufpool.c: the header and the operations that make or give up space
-- in front of and behind the data. The asserts of the operations are conditions of the theorems.
pub mod Contents
pub mod Steps
use zboss.Base.{
  ℕ, ◌+◌, ◌-◌, ◌/◌, ◌%◌, Bool, true, false, ltb, if◌then◌else◌, List, length, memmove, memcpy,
}

-- ZB_IO_BUF_SIZE
abbrev pub io_buf_size : ℕ
io_buf_size = 148

-- `zb_buf_t` while it is in use: the header `zb_buf_hdr_t` and the octets, by index.
pub record Buf : Type 0 where
  pub len : ℕ
  pub data_offset : ℕ
  pub handle : ℕ
  pub mac_hdr_offset : ℕ
  pub status : ℕ
  pub is_in_buf : Bool
  pub encrypt_type : ℕ
  pub use_same_key : Bool
  pub zdo_cmd_no_resp : Bool
  pub mhr_len : ℕ
  pub buf : ℕ → ℕ

-- `zb_buf_reuse`: ZB_BZERO of the header, less the direction.
unfoldable pub buf_reuse : Buf → Buf
buf_reuse b = record {
  len = 0;
  data_offset = 0;
  handle = 0;
  mac_hdr_offset = 0;
  status = 0;
  is_in_buf = b.is_in_buf;
  encrypt_type = 0;
  use_same_key = false;
  zdo_cmd_no_resp = false;
  mhr_len = 0;
  buf = b.buf;
}

-- `zb_buf_initial_alloc`, for at most `io_buf_size` octets.
unfoldable pub initial_alloc : Buf → ℕ → Buf
unfolding buf_reuse
initial_alloc b size = record (buf_reuse b) {
  len = size % 256;
  data_offset = (io_buf_size - size) / 2 % 256;
}

-- `zb_buf_smart_alloc_left`: the data moves right when there is not enough space in front of it.
unfoldable pub smart_alloc_left : Buf → ℕ → Buf
smart_alloc_left b size =
    let p = b.data_offset in
    let moved =
      if ltb b.data_offset size
      then record b { buf = memmove b.buf (p + (size - b.data_offset)) p b.len; data_offset = size }
      else b in
    record moved {
      len = (moved.len + size) % 256;
      data_offset = (moved.data_offset + 256 - size) % 256;
    }

-- `zb_buf_smart_alloc_right`: the buffer, and the index of the space.
unfoldable pub smart_alloc_right : Buf → ℕ → Buf × ℕ
smart_alloc_right b size = (record b { len = (b.len + size) % 256 }, b.data_offset + b.len)

-- `zb_buf_cut_left`
unfoldable pub cut_left : Buf → ℕ → Buf
cut_left b size = record b {
  len = (b.len + 256 - size) % 256;
  data_offset = (b.data_offset + size) % 256;
}

-- `zb_buf_cut_right`
unfoldable pub cut_right : Buf → ℕ → Buf
cut_right b size = record b { len = (b.len + 256 - size) % 256 }

-- `zb_get_buf_tail`: the index of the tail.
unfoldable pub get_buf_tail : ℕ → ℕ
get_buf_tail size = io_buf_size - size

-- The data moves left when it reaches into the tail. The C compares and subtracts ints: `delta` is
-- `size - (ZB_IO_BUF_SIZE - (data_offset + len))`.
unfoldable pub clear_tail : Buf → ℕ → Buf
clear_tail b size =
    let p = b.data_offset in
    let delta = b.data_offset + b.len + size - io_buf_size in
    if ltb io_buf_size (b.data_offset + b.len + size)
    then record b {
      buf = memmove b.buf (p - delta) p b.len;
      data_offset = (b.data_offset + 256 - delta) % 256;
    }
    else b

-- `zb_buf_assign_param`
unfoldable pub assign_param : Buf → List ℕ → Buf
assign_param b param =
    let size = length param in
    let cleared = clear_tail b size in
    record cleared { buf = memcpy cleared.buf (get_buf_tail size) param }
