-- ===== src/Time/Window.antt =====
-- Within a window of less than half the clock's range the macros of include/zb_time.h behave as
-- unbounded time does.
use zboss.Base.{ℕ, ◌+◌, ◌-◌, ◌≤◌, ◌<◌, ◌≡◌, ◌↔◌, arith, false, leb}
use zboss.Time.{wrap_sub, time_subtract, time_add, time_ge}

-- Two deadlines `now + x` and `now + y`, both less than half the range ahead of a 16-bit `now`,
-- compare by ZB_TIME_GE as `x` and `y` do, whether or not the clock wraps between them.
pub time_ge-time_add :
    (now x y : ℕ)
    → now < 65536
    → x < 32767
    → y < 32767
    → time_ge (time_add now x) (time_add now y) ≡ leb y x
unfolding time_ge time_add
time_ge-time_add now x y hn hx hy = ground arith

-- Under the same bounds ZB_TIME_SUBTRACT gives the distance of the two deadlines, in either order.
pub time_subtract-time_add :
    (now x y : ℕ)
    → now < 65536
    → x < 32767
    → y < 32767
    → time_subtract (time_add now x) (time_add now y) ≡ (x - y) + (y - x)
unfolding time_subtract time_add
time_subtract-time_add now x y hn hx hy = ground arith

-- Two 16-bit times that are each not at or after the other exist, and are exactly those whose
-- distance is 32767, 32768 or 32769: there ZB_TIME_GE is not total.
pub time_ge-neither_iff :
    (a b : ℕ)
    → a < 65536
    → b < 65536
    → ((time_ge a b ≡ false) × (time_ge b a ≡ false))
      ↔ ((32767 ≤ wrap_sub a b) × (wrap_sub a b ≤ 32769))
unfolding time_ge
time_ge-neither_iff a b ha hb = ground arith
