-- ===== src/Neighbors/Start.antt =====
-- The functions of nwk/nwk_neighbor.c that start and stop the work with the extended table: they move
-- the entries of the base table together, cut its space, and give it back. The sizes of the two kinds
-- of entries are arguments, since they depend on the build.
use zboss.Base.{
  ℕ, zero, suc, ◌+◌, ◌-◌, ◌*◌, ◌/◌, ◌%◌, ◌^◌, Bool, true, false, not, ◌&&◌, ◌==◌, leb, ltb,
  if◌then◌else◌, List, Option, none, some, update,
}
use zboss.Alarm.{ok}
use zboss.Pans.{Pans, get_pan_id_ref}
use zboss.Address.{Addresses, compressed_cmp, ieee_addr_decompress}
use zboss.Address.Entries.{
  Outcome, no_short, zero_ieee, address_by_ieee, address_by_short, address_update,
}
use zboss.Neighbors.{
  Neighbor, ExtNeighbor, Neighbors, zero_neighbor, neighbor_table_size, no_neighbor,
  none_of_the_above, device_type_ed, device_type_none,
}

-- `zb_nwk_exneighbor_start` moves the entry at `i` to the left by `hole` places.
unfoldable pub pack_move : Neighbors → ℕ → ℕ → Neighbors
pack_move s i hole =
    let ent = s.base_neighbor i in
    let copied = update s.base_neighbor (i - hole) ent in
    record s {
      addr_to_neighbor = update s.addr_to_neighbor ent.addr_ref ((i - hole) % 256);
      base_neighbor = update copied i (record ent { used = false });
    }

-- The loop of `zb_nwk_exneighbor_start` over the base table, with the rounds left. A hole less than 0
-- does not arise: it is taken away where there is one.
unfoldable pub pack_loop : ℕ → Neighbors → ℕ → ℕ → ℕ → Neighbors
pack_loop zero s i used hole = s
pack_loop (suc k) s i used hole =
    let here = (s.base_neighbor i).used in
    let moved = if here && ltb 0 hole then pack_move s i hole else s in
    let rest =
      pack_loop k moved (i + 1) (if here then used + 1 else used)
        (if here then hole - 1 else hole + 1) in
    if ltb i s.base_neighbor_size && ltb used s.base_neighbor_used then rest else s

-- `pack base neighbor`
unfoldable pub pack : Neighbors → Neighbors
pack s = if s.base_neighbor_used == 0 then s else pack_loop s.base_neighbor_size s 0 0 0

-- How many entries of the base table `zb_nwk_exneighbor_start` gives away; `base_neighbor_cleanup`
-- does nothing.
unfoldable pub cut_entries : Neighbors → ℕ
cut_entries s =
    let cut = s.base_neighbor_size / 2 % 256 in
    if ltb (s.base_neighbor_size - cut) s.base_neighbor_used
    then (s.base_neighbor_size + 2 ^ 32 - s.base_neighbor_used) % 2 ^ 32 % 256
    else cut

-- MAGIC_ROUND_TO_4, stored in 8 bits
unfoldable pub round_to_four : ℕ → ℕ
round_to_four a = (a + 3) / 4 * 4 % 256

-- The rest of `zb_nwk_exneighbor_start`, for sizes of a base and of an extended entry; none where the
-- assertion fails.
unfoldable pub cut_table : ℕ → ℕ → Neighbors → Option Neighbors
cut_table base_size ext_size s =
    let cut = cut_entries s in
    let size = s.base_neighbor_size - cut in
    let off = round_to_four (size * base_size) in
    let octets = (cut * base_size + size * base_size + 2 ^ 32 - off) % 256 in
    let ext = octets / ext_size in
    if ext == 0
    then none
    else some (record s { base_neighbor_size = size; ext_neighbor_size = ext })

-- `zb_nwk_exneighbor_start`
unfoldable pub exneighbor_start : ℕ → ℕ → Neighbors → Option Neighbors
exneighbor_start base_size ext_size s =
    if s.ext_neighbor_size == 0 then cut_table base_size ext_size (pack s) else some s

-- How `zb_nwk_exneighbor_stop` looks up the address of an extended entry.
unfoldable pub ext_address : Addresses → ExtNeighbor → Outcome
ext_address addresses ent =
    let long_address = ieee_addr_decompress addresses ent.long_addr in
    if ent.short_addr == no_short
    then address_by_ieee addresses long_address true false
    else if compressed_cmp ent.long_addr zero_ieee
    then address_by_short addresses ent.short_addr true false
    else address_update addresses long_address ent.short_addr false

-- The new entry of the base table for an extended entry, without what every entry gets.
unfoldable pub from_ext : ExtNeighbor → Neighbor
from_ext ext = record zero_neighbor {
  device_type = ext.device_type;
  rx_on_when_idle = not (ext.device_type == device_type_ed);
  depth = ext.depth;
  permit_joining = ext.permit_joining;
  relationship = none_of_the_above;
}

-- What every entry gets.
unfoldable pub mark_used : Neighbor → ExtNeighbor → ℕ → Neighbor
mark_used ent ext addr_ref = record ent { used = true; addr_ref = addr_ref; lqi = ext.lqi }

-- An extended entry goes into the base table, for this reference; none where an assertion fails.
unfoldable pub move_to_base : Neighbors → ExtNeighbor → ℕ → Option Neighbors
move_to_base s ext addr_ref =
    let n = s.addr_to_neighbor addr_ref in
    let old = s.base_neighbor n in
    let typed = if old.device_type == device_type_none then ext.device_type else old.device_type in
    let free = s.base_neighbor_used in
    if not (n == no_neighbor)
    then if old.used
      then some (record s {
        base_neighbor =
            update s.base_neighbor n (mark_used (record old { device_type = typed }) ext addr_ref);
      })
      else none
    else if ltb free s.base_neighbor_size
    then some (record s {
      addr_to_neighbor = update s.addr_to_neighbor addr_ref (free % 256);
      base_neighbor_used = free + 1;
      base_neighbor = update s.base_neighbor free (mark_used (from_ext ext) ext addr_ref);
    })
    else some s

-- With the address's outcome.
unfoldable pub keep_ext : Neighbors → ExtNeighbor → Outcome → Option (Neighbors × Addresses)
keep_ext s ext none = none
keep_ext s ext (some (ok, some addr_ref, addresses)) = elim (move_to_base s ext addr_ref) [
  | none ↦ none
  | some s' ↦ some (s', addresses)
]
keep_ext s ext (some (ret, ref, addresses)) = some (s, addresses)

-- The space of an extended entry comes back: the table's size and the octets left over.
unfoldable pub give_back : ℕ → ℕ → Neighbors → ℕ → Option (Neighbors × ℕ)
give_back base_size ext_size s free_size =
    let free = (free_size + ext_size) % 256 in
    let size = s.base_neighbor_size + free / base_size in
    if leb size neighbor_table_size
    then some (record s { base_neighbor_size = size }, free - free / base_size * base_size)
    else none

-- The loop of `zb_nwk_exneighbor_stop`, with the rounds left.
unfoldable pub stop_loop :
    ℕ → ℕ → ℕ → ℕ → Neighbors → Addresses → ℕ → ℕ → Option (Neighbors × Addresses)
stop_loop zero base_size ext_size my_panid_ref s addresses free_size i = some (s, addresses)
stop_loop (suc k) base_size ext_size my_panid_ref s addresses free_size i =
    let ext = s.ext_neighbor i in
    let kept =
      if ext.panid_ref == my_panid_ref
      then keep_ext s ext (ext_address addresses ext)
      else some (s, addresses) in
    elim kept [
      | none ↦ none
      | some (t, addresses') ↦ elim (give_back base_size ext_size t free_size) [
        | none ↦ none
        | some (u, rest) ↦ stop_loop k base_size ext_size my_panid_ref u addresses' rest (i + 1)
      ]
    ]

-- The end of `zb_nwk_exneighbor_stop`.
unfoldable pub stop_ext : Neighbors → Neighbors
stop_ext s = record s {
  base_neighbor_size = neighbor_table_size;
  ext_neighbor_used = 0;
  ext_neighbor_size = 0;
}

-- `zb_nwk_exneighbor_stop`, for a device that has joined or not; none where an assertion fails, or
-- where the network's identifier has no reference, so that its variable is not set.
unfoldable pub exneighbor_stop :
    ℕ → ℕ → Neighbors → Addresses → Pans → List ℕ → Bool → Option (Neighbors × Addresses)
exneighbor_stop base_size ext_size s addresses pans ext_pan_id joined =
    if joined
    then elim (get_pan_id_ref pans ext_pan_id) [
      | none ↦ none
      | some my_panid_ref ↦
          elim (stop_loop s.ext_neighbor_used base_size ext_size my_panid_ref s addresses 0 0) [
            | none ↦ none
            | some (t, addresses') ↦ some (stop_ext t, addresses')
          ]
    ]
    else some (stop_ext s, addresses)
