-- ===== src/Ring.antt =====
-- The ring buffer macros of include/zb_ringbuffer.h, generic in the entry. The macros that return a
-- pointer into `ring_buf` are split as the code uses them: the index or entry that the pointer
-- designates, or none for NULL. Counters are 32-bit unsigned.
pub mod Inv
pub mod Fifo
use zboss.Base.{
  ℕ, ◌+◌, ◌-◌, ◌%◌, ◌^◌, List, Bool, Option, none, some, length, get_elem?, set, leb, ◌==◌,
  if◌then◌else◌,
}

-- ZB_RING_BUFFER_DECLARE
pub record Ring {ℓ} (A : Type ℓ) : Type ℓ where
  pub ring_buf : List A
  pub read_i : ℕ
  pub write_i : ℕ
  pub written : ℕ

module _ {ℓ} {A : Type ℓ} where
  -- ZB_RING_BUFFER_INIT
  pub init : Ring A → Ring A
  init rb = record rb { read_i = 0; write_i = 0; written = 0 }

  -- ZB_RING_BUFFER_CAPACITY
  abbrev pub capacity : Ring A → ℕ
  capacity rb = length rb.ring_buf

  -- ZB_RING_BUFFER_IS_FULL
  unfoldable pub is_full : Ring A → Bool
  is_full rb = leb (capacity rb) rb.written

  -- ZB_RING_BUFFER_IS_EMPTY
  unfoldable pub is_empty : Ring A → Bool
  is_empty rb = rb.written == 0

  -- ZB_RING_BUFFER_PUT_RESERVE: the slot to fill.
  unfoldable pub put_reserve : Ring A → Option ℕ
  unfolding is_full
  put_reserve rb = if is_full rb then none else some rb.write_i

  -- ZB_RING_BUFFER_FLUSH_PUT
  unfoldable pub flush_put : Ring A → Ring A
  flush_put rb = record rb {
    written = (rb.written + 1) % 2 ^ 32;
    write_i = (rb.write_i + 1) % 2 ^ 32 % capacity rb;
  }

  -- `*slot = value` on a reserved slot
  unfoldable pub fill : Ring A → ℕ → A → Ring A
  fill rb i value = record rb { ring_buf = set rb.ring_buf i value }

  -- ZB_RING_BUFFER_PUT
  unfoldable pub put : Ring A → A → Ring A
  put rb value = record rb {
    ring_buf = set rb.ring_buf rb.write_i value;
    written = (rb.written + 1) % 2 ^ 32;
    write_i = (rb.write_i + 1) % 2 ^ 32 % capacity rb;
  }

  -- ZB_RING_BUFFER_PEEK
  unfoldable pub peek : Ring A → Option A
  unfolding is_empty
  peek rb = if is_empty rb then none else get_elem? rb.ring_buf rb.read_i

  -- ZB_RING_BUFFER_FLUSH_GET; `written--` wraps below 0.
  unfoldable pub flush_get : Ring A → Ring A
  flush_get rb = record rb {
    written = (rb.written + 2 ^ 32 - 1) % 2 ^ 32;
    read_i = (rb.read_i + 1) % 2 ^ 32 % capacity rb;
  }
