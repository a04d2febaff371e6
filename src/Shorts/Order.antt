-- ===== src/Shorts/Order.antt =====
-- The order that the table of short addresses keeps.
use zboss.Base.{ℕ, ◌≤◌, ◌<◌}
use zboss.Shorts.{Shorts, addr_at}

-- The elements are in the order of their addresses.
abbrev pub Sorted : Shorts → Type 0
Sorted s = (i j : ℕ) → i ≤ j → j < s.n_sorted_elements → addr_at s i ≤ addr_at s j

-- All elements before `l` are smaller, and none from `r` on is.
pub record Between (s : Shorts) (short_addr l r : ℕ) : Type 0 where
  pub smaller : (i : ℕ) → i < l → addr_at s i < short_addr
  pub larger : (i : ℕ) → r ≤ i → i < s.n_sorted_elements → short_addr ≤ addr_at s i

-- All elements before `l` are smaller or equal, and none from `r` on is smaller.
pub record Above (s : Shorts) (short_addr l r : ℕ) : Type 0 where
  pub smaller : (i : ℕ) → i < l → addr_at s i ≤ short_addr
  pub larger : (i : ℕ) → r ≤ i → i < s.n_sorted_elements → short_addr ≤ addr_at s i
