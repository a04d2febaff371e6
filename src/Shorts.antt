-- ===== src/Shorts.antt =====
-- The sorted table of short addresses of common/zb_address.c. An array is a function of the index;
-- `short_sorted` holds references into `addr_map`, of which only the `addr` field plays a part here.
pub mod Order
pub mod Search
pub mod Place
pub mod Add
pub mod Delete
use zboss.Base.{
  ℕ, zero, suc, ◌+◌, ◌-◌, ◌/◌, Bool, true, false, not, ◌&&◌, ltb, leb, ◌==◌, if◌then◌else◌, Option,
  none, some, update, memmove,
}

pub record Shorts : Type 0 where
  pub addr : ℕ → ℕ
  pub short_sorted : ℕ → ℕ
  pub n_sorted_elements : ℕ

-- `ZG->addr.addr_map[ZG->addr.short_sorted[i]].addr`
abbrev pub addr_at : Shorts → ℕ → ℕ
addr_at s i = s.addr (s.short_sorted i)

-- The loop of `short_search`, which goes right past smaller addresses.
unfoldable pub search_loop : ℕ → Shorts → ℕ → ℕ → ℕ → ℕ
search_loop zero s short_addr l r = l
search_loop (suc k) s short_addr l r =
    let i = l + (r - l) / 2 in
    let right = search_loop k s short_addr (i + 1) r in
    let left = search_loop k s short_addr l i in
    if ltb l r then (if ltb (addr_at s i) short_addr then right else left) else l

-- Where `short_search` looks: with one element or none there is no search.
unfoldable pub search_place : Shorts → ℕ → ℕ
search_place s short_addr =
    let n = s.n_sorted_elements in if ltb 1 n then search_loop n s short_addr 0 n else 0

-- `short_search`: the reference found, or none for ZB_FALSE.
unfoldable pub short_search : Shorts → ℕ → Option ℕ
short_search s short_addr =
    let l = search_place s short_addr in
    if ltb 0 s.n_sorted_elements && ltb l s.n_sorted_elements && short_addr == addr_at s l
    then some (s.short_sorted l)
    else none

-- The loop of `add_short_sorted`, which goes right past smaller and equal addresses.
unfoldable pub add_loop : ℕ → Shorts → ℕ → ℕ → ℕ → ℕ
add_loop zero s short_addr l r = l
add_loop (suc k) s short_addr l r =
    let i = l + (r - l) / 2 in
    let right = add_loop k s short_addr (i + 1) r in
    let left = add_loop k s short_addr l i in
    if ltb l r then (if leb (addr_at s i) short_addr then right else left) else l

-- Where the search of `add_short_sorted` ends: with one element or none there is none.
unfoldable pub add_search : Shorts → ℕ → ℕ
add_search s short_addr =
    let n = s.n_sorted_elements in if ltb 1 n then add_loop n s short_addr 0 n else 0

-- Where `add_short_sorted` puts the new element.
unfoldable pub add_place : Shorts → ℕ → ℕ
add_place s short_addr =
    let n = s.n_sorted_elements in
    let l = add_search s short_addr in
    if ltb 0 n && ltb l n && ltb (addr_at s l) short_addr then l + 1 else l

-- `add_short_sorted`; the caller has stored `short_addr` in the entry.
unfoldable pub add_short_sorted : Shorts → ℕ → ℕ → Shorts
add_short_sorted s ref short_addr =
    let n = s.n_sorted_elements in
    let l = add_place s short_addr in
    let moved = if ltb l n then memmove s.short_sorted (l + 1) l (n - l) else s.short_sorted in
    record s { short_sorted = update moved l ref; n_sorted_elements = n + 1 }
