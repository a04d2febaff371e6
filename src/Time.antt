-- ===== src/Time.antt =====
-- Time in beacon intervals, include/zb_time.h: a 16-bit clock that wraps, with the macros by which
-- the scheduler adds, subtracts and compares its values.
pub mod Window
use zboss.Base.{ℕ, ◌+◌, ◌-◌, ◌%◌, ◌^◌, Bool, ltb, if◌then◌else◌}

-- ZB_MAX_TIME_VAL and ZB_HALF_MAX_TIME_VAL
abbrev pub max_time_val : ℕ
max_time_val = 65535

abbrev pub half_max_time_val : ℕ
half_max_time_val = 32767

-- `(zb_time_t)((a) - (b))`: the subtraction wraps at 16 bits.
unfoldable pub wrap_sub : ℕ → ℕ → ℕ
wrap_sub a b = (a + 65536 - b) % 65536

-- ZB_TIME_SUBTRACT
unfoldable pub time_subtract : ℕ → ℕ → ℕ
unfolding wrap_sub
time_subtract a b = if ltb (wrap_sub a b) half_max_time_val then wrap_sub a b else wrap_sub b a

-- ZB_TIME_ADD
unfoldable pub time_add : ℕ → ℕ → ℕ
time_add a b = (a + b) % 65536

-- ZB_TIME_GE
unfoldable pub time_ge : ℕ → ℕ → Bool
unfolding wrap_sub
time_ge a b = ltb (wrap_sub a b) half_max_time_val
