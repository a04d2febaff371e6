-- ===== src/Cskip.antt =====
-- Distributed address assignment, nwk/nwk_address_assign.c: how many addresses a router at a depth of
-- the tree gives to each of its router children. The parameters are 8-bit, the power is kept in 16 bits
-- and the quotient is of signed integers, cut to 16 bits at the end.
pub mod Blocks
use zboss.Base.{
  ℕ, zero, suc, ◌+◌, ◌-◌, ◌*◌, ◌/◌, ◌%◌, ◌^◌, Bool, true, false, ltb, leb, ◌==◌, if◌then◌else◌,
}

-- The fields of `zb_nib_t` that the function reads.
pub record Nib : Type 0 where
  pub max_children : ℕ
  pub max_routers : ℕ
  pub max_depth : ℕ

-- `for (...) tmp *= max_routers`
unfoldable pub power_loop : ℕ → ℕ → ℕ → ℕ
power_loop zero max_routers tmp = tmp
power_loop (suc k) max_routers tmp = power_loop k max_routers (tmp * max_routers % 2 ^ 16)

-- `(zb_uint16_t)(num / den)` for `num = above - below` and `den = 1 - max_routers`.
unfoldable pub quotient : ℕ → ℕ → ℕ → ℕ
quotient zero above below =
    if leb below above
    then (above - below) % 2 ^ 16
    else (2 ^ 16 - (below - above) % 2 ^ 16) % 2 ^ 16
quotient (suc less) above below =
    if leb above below
    then (below - above) / less % 2 ^ 16
    else (2 ^ 16 - (above - below) / less % 2 ^ 16) % 2 ^ 16

-- `(zb_uint16_t)(1 + max_children * (max_depth - depth - 1))`, of signed integers
unfoldable pub line : Nib → ℕ → ℕ
line nib depth =
    if ltb depth nib.max_depth
    then (1 + nib.max_children * (nib.max_depth - depth - 1)) % 2 ^ 16
    else (2 ^ 32 + 1 - nib.max_children * (depth + 1 - nib.max_depth)) % 2 ^ 16

-- `zb_nwk_daa_calc_cskip`
unfoldable pub calc_cskip : Nib → ℕ → ℕ
calc_cskip nib depth =
    let tmp = power_loop (nib.max_depth - depth - 1) nib.max_routers 1 in
    if nib.max_routers == 1
    then line nib depth
    else quotient nib.max_routers (1 + nib.max_children) (nib.max_routers + nib.max_children * tmp)
