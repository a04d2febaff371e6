-- ===== src/TreeRoute.antt =====
-- Tree routing, nwk/nwk_cr_tree_routing.c: the next hop by the address blocks of the tree. The look-up
-- of an address in the address table and from there in the neighbour table is given by its result.
pub mod Hops
use zboss.Base.{
  ℕ, zero, suc, ◌+◌, ◌-◌, ◌*◌, ◌%◌, Bool, ◌&&◌, ◌||◌, ltb, ◌==◌, if◌then◌else◌, Option, none, some,
}
use zboss.Cskip.{Nib, calc_cskip}

-- What the functions read: `nib.cskip`, `nib.depth`, `mac_short_address`, the index in the neighbour
-- table for a short address, if both tables have it, and the entry of the parent.
pub record TreeRoute : Type 0 where
  pub nib : Nib
  pub cskip : ℕ
  pub depth : ℕ
  pub mac_short_address : ℕ
  pub neighbor : ℕ → Option ℕ
  pub parent : Option ℕ

-- `zb_nwk_tree_routing_init`
unfoldable pub routing_init : TreeRoute → TreeRoute
routing_init s = record s { cskip = 0xffff }

-- The loop of `zb_nwk_tree_routing_find_router` over `k` router children from the `i`-th on.
unfoldable pub router_loop : ℕ → TreeRoute → ℕ → ℕ → Option ℕ
router_loop zero s dest_address i = none
router_loop (suc k) s dest_address i =
    let lower_address = (s.cskip * i + 1) % 65536 in
    let upper_address = (lower_address + s.cskip) % 65536 in
    let rest = router_loop k s dest_address (i + 1) in
    if ltb lower_address dest_address && ltb dest_address upper_address
    then s.neighbor lower_address
    else rest

-- `zb_nwk_tree_routing_find_router`: the exact address first.
unfoldable pub find_router : TreeRoute → ℕ → Option ℕ
unfolding router_loop
find_router s dest_address = elim (s.neighbor dest_address) [
  | some n ↦ some n
  | none ↦ router_loop s.nib.max_routers s dest_address 0
]

-- `zb_nwk_tree_routing_route`
unfoldable pub tree_route : TreeRoute → ℕ → Option ℕ
unfolding find_router
tree_route s dest_address =
    let cskip_parent = if s.depth == 0 then 0 else calc_cskip s.nib (s.depth - 1) in
    let route_down =
      ltb s.mac_short_address dest_address
      && ltb dest_address (s.mac_short_address + cskip_parent) in
    if s.mac_short_address == 0 || route_down then find_router s dest_address else s.parent
