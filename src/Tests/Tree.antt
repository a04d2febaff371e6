-- ===== src/Tests/Tree.antt =====
-- The parameters of a small tree.
use zboss.Base.{◌+◌, ◌*◌, ◌≡◌, refl, arith, ◌==◌, if◌then◌else◌, none, some}
use zboss.Cskip.{Nib, calc_cskip}
use zboss.Cskip.Blocks.{block, calc_cskip-block}
use zboss.TreeRoute.{TreeRoute, tree_route}
use zboss.TreeRoute.Hops.{tree_route-child}

abbrev small_tree : Nib
small_tree = record { max_children = 4; max_routers = 2; max_depth = 3 }

calc_cskip-block_example : calc_cskip small_tree 0 ≡ block 2 2 2
unfolding block
calc_cskip-block_example =
    calc_cskip-block small_tree 0 (omega arith) (omega arith) (omega arith) (omega arith)

-- The coordinator of that tree; the table has the children at 1 and 14.
abbrev coordinator : TreeRoute
coordinator = record {
  nib = small_tree;
  cskip = 13;
  depth = 0;
  mac_short_address = 0;
  neighbor = λ a. if a == 1 then some 3 else if a == 14 then some 4 else none;
  parent = none;
}

tree_route-child_example : tree_route coordinator (13 * 1 + 1 + 5) ≡ some 4
tree_route-child_example =
    tree_route-child coordinator 1 5 refl (omega arith) (omega arith) (omega arith) (omega arith)
      refl
