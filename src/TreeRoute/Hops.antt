-- ===== src/TreeRoute/Hops.antt =====
-- Where tree routing sends a frame.
use zboss.Base.{
  ℕ, zero, suc, ◌+◌, ◌-◌, ◌*◌, ◌%◌, ◌≤◌, ◌<◌, ◌≡◌, refl, sym, ap, ◌∙◌, arith, true, false, ◌&&◌,
  ltb, ◌==◌, none,
}
use native.Mathlib.Decide.{dec_lt}
use zboss.TreeRoute.{TreeRoute, router_loop, find_router, tree_route}

-- The end of an earlier block is not behind the start of a later one.
blocks-le : (c i j : ℕ) → i < j → c * i + c ≤ c * j
blocks-le c i j h =
    let apart : j ≡ i + 1 + (j - i - 1) = omega arith in omega (arith, ap (λ x. c * x) apart)

same_block : (c i j : ℕ) → i ≤ j → ¬ (i < j) → c * j ≡ c * i
same_block c i j from now = let at : j ≡ i = omega arith in ap (λ x. c * x) at

-- The block of the `j`-th router child is found.
router_loop-child :
    (k : ℕ) (s : TreeRoute) (i j r : ℕ)
    → i ≤ j
    → j < k + i
    → 0 < r
    → r < s.cskip
    → s.cskip * (k + i) + 1 < 65536
    → router_loop k s (s.cskip * j + 1 + r) i ≡ s.neighbor (s.cskip * j + 1)
unfolding router_loop
router_loop-child zero s i j r from below pos short fit = absurd (omega arith)
router_loop-child (suc k) s i j r from below pos short fit = elim (dec_lt i j) [
  | yes later ↦
      let before = blocks-le s.cskip i j later in
      let inside = blocks-le s.cskip j (suc k + i) below in
      let lower : (s.cskip * i + 1) % 65536 ≡ s.cskip * i + 1 = omega (arith, before, inside) in
      let upper : (s.cskip * i + 1 + s.cskip) % 65536 ≡ s.cskip * i + 1 + s.cskip =
        omega (arith, before, inside) in
      let miss : (ltb (s.cskip * i + 1) (s.cskip * j + 1 + r)
            && ltb (s.cskip * j + 1 + r) (s.cskip * i + 1 + s.cskip))
          ≡ false =
        ground arith in
      rw (lower, upper, miss)
        (router_loop-child k s (i + 1) j r (omega arith) (omega arith) pos short
          (omega (arith, ap (λ x. s.cskip * x) (next k i))))
  | no now ↦
      let at : s.cskip * j ≡ s.cskip * i = same_block s.cskip i j from now in
      let inside = blocks-le s.cskip i (suc k + i) (omega arith) in
      let lower : (s.cskip * i + 1) % 65536 ≡ s.cskip * i + 1 = omega (arith, inside) in
      let upper : (s.cskip * i + 1 + s.cskip) % 65536 ≡ s.cskip * i + 1 + s.cskip =
        omega (arith, inside) in
      let hit : (ltb (s.cskip * i + 1) (s.cskip * j + 1 + r)
            && ltb (s.cskip * j + 1 + r) (s.cskip * i + 1 + s.cskip))
          ≡ true =
        ground (arith, at) in
      rw (lower, upper, hit) (ap (λ x. s.neighbor (x + 1)) (sym at))
]
  where
    next : (k i : ℕ) → k + (i + 1) ≡ suc k + i
    next k i = omega arith

find_router-none :
    (s : TreeRoute) (dest_address : ℕ)
    → s.neighbor dest_address ≡ none
    → find_router s dest_address ≡ router_loop s.nib.max_routers s dest_address 0
unfolding find_router
find_router-none s dest_address unknown = rw (find_router, unknown) refl

-- Let the coordinator's blocks for its router children fit the 16-bit addresses, and let the
-- destination, which the tables do not have, lie in the block of the `j`-th of them behind that
-- child's own address. Then `zb_nwk_tree_routing_route` gives the table's entry of that child.
pub tree_route-child :
    (s : TreeRoute) (j r : ℕ)
    → s.mac_short_address ≡ 0
    → j < s.nib.max_routers
    → 0 < r
    → r < s.cskip
    → s.cskip * s.nib.max_routers + 1 < 65536
    → s.neighbor (s.cskip * j + 1 + r) ≡ none
    → tree_route s (s.cskip * j + 1 + r) ≡ s.neighbor (s.cskip * j + 1)
unfolding tree_route
tree_route-child s j r root below pos short fit unknown =
    let coordinator : (s.mac_short_address == 0) ≡ true = ground arith in
    let all : s.nib.max_routers + 0 ≡ s.nib.max_routers = omega arith in
    rw coordinator (
      find_router-none s (s.cskip * j + 1 + r) unknown
      ∙ router_loop-child s.nib.max_routers s 0 j r (omega arith) (omega arith) pos short
          (omega (arith, ap (λ x. s.cskip * x) all)))
