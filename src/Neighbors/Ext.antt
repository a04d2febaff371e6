-- ===== src/Neighbors/Ext.antt =====
-- The extended neighbour table of nwk/nwk_neighbor.c: the entries of devices in other networks.
pub mod Find
use zboss.Base.{
  ℕ, zero, suc, ◌+◌, ◌-◌, ◌%◌, ◌<◌, ◌≤◌, ◌≡◌, refl, sym, ap, ◌∙◌, arith, Bool, true, false, not,
  ◌&&◌, ◌==◌, leb, ltb, if◌then◌else◌, Bool-cases, inl, inr, List, Option, none, some, update,
  First, First-end, First-here, First-later, First-unique,
}
use zboss.Alarm.{Ret, ok, not_found, no_memory}
use zboss.Address.{Compressed, Addresses, compressed_cmp, ieee_addr_compress, ieee_addr_decompress}
use zboss.Address.Entries.{Outcome, no_short, address_by_ieee}
use zboss.Neighbors.{
  Neighbor, ExtNeighbor, Neighbors, Handed, zero_neighbor, zero_ext_neighbor, none_of_the_above,
  device_type_ed,
}

-- `alloc_new_extneiboard`: the code, the entry's index and the table.
unfoldable pub alloc_new_extneiboard : Neighbors → ℕ → ℕ → Ret × Option ℕ × Neighbors
alloc_new_extneiboard s panid_ref short_addr =
    let n = s.ext_neighbor_used in
    if n == s.ext_neighbor_size then (no_memory, none, s) else (
      ok,
      some n,
      record s {
        ext_neighbor_used = n + 1;
        ext_neighbor =
            update s.ext_neighbor n
              (record zero_ext_neighbor { short_addr = short_addr; panid_ref = panid_ref });
      },
    )

-- The test of `zb_nwk_exneighbor_by_short` on one entry.
unfoldable pub is_ext_short : Neighbors → ℕ → ℕ → ℕ → Bool
is_ext_short s panid_ref short_addr i =
    (s.ext_neighbor i).short_addr == short_addr && (s.ext_neighbor i).panid_ref == panid_ref

-- The loop of `zb_nwk_exneighbor_by_short`, with the rounds left: where it stops.
unfoldable pub ext_short_loop : ℕ → Neighbors → ℕ → ℕ → ℕ → ℕ
ext_short_loop zero s panid_ref short_addr i = i
ext_short_loop (suc k) s panid_ref short_addr i =
    let rest = ext_short_loop k s panid_ref short_addr (i + 1) in
    if is_ext_short s panid_ref short_addr i then i else rest

-- `zb_nwk_exneighbor_by_short`
unfoldable pub exneighbor_by_short : Neighbors → ℕ → ℕ → Ret × Option ℕ × Neighbors
exneighbor_by_short s panid_ref short_addr =
    let i = ext_short_loop s.ext_neighbor_used s panid_ref short_addr 0 in
    if ltb i s.ext_neighbor_used
    then (ok, some i, s)
    else alloc_new_extneiboard s panid_ref short_addr

-- The test of `zb_nwk_exneighbor_by_ieee` on one entry.
unfoldable pub is_ext_ieee : Neighbors → ℕ → Compressed → ℕ → Bool
is_ext_ieee s panid_ref c i =
    (s.ext_neighbor i).panid_ref == panid_ref && compressed_cmp (s.ext_neighbor i).long_addr c

-- The loop of `zb_nwk_exneighbor_by_ieee`, with the rounds left, which goes on when it has found an
-- entry.
unfoldable pub ext_ieee_loop : ℕ → Neighbors → ℕ → Compressed → ℕ → Option ℕ → Option ℕ
ext_ieee_loop zero s panid_ref c i found = found
ext_ieee_loop (suc k) s panid_ref c i found =
    ext_ieee_loop k s panid_ref c (i + 1) (if is_ext_ieee s panid_ref c i then some i else found)

-- The end of `zb_nwk_exneighbor_by_ieee`: a new entry gets the address, compressed once more.
unfoldable pub put_long : ℕ → Neighbors → Option (Compressed × Addresses) → Handed
put_long n s none = none
put_long n s (some (c, addresses)) = some (
  ok,
  some n,
  record s { ext_neighbor = update s.ext_neighbor n (record (s.ext_neighbor n) { long_addr = c }) },
  addresses,
)

unfoldable pub store_long : List ℕ → Addresses → Ret × Option ℕ × Neighbors → Handed
store_long long_addr addresses (ok, some n, s) =
    put_long n s (ieee_addr_compress addresses long_addr)
store_long long_addr addresses (ret, n, s) = some (ret, n, s, addresses)

unfoldable pub ext_ieee_found : Neighbors → ℕ → List ℕ → Addresses → Option ℕ → Handed
ext_ieee_found s panid_ref long_addr addresses (some i) = some (ok, some i, s, addresses)
ext_ieee_found s panid_ref long_addr addresses none =
    store_long long_addr addresses (alloc_new_extneiboard s panid_ref no_short)

unfoldable pub ext_ieee_search : Neighbors → ℕ → List ℕ → Option (Compressed × Addresses) → Handed
ext_ieee_search s panid_ref long_addr none = none
ext_ieee_search s panid_ref long_addr (some (c, addresses)) =
    ext_ieee_found s panid_ref long_addr addresses
      (ext_ieee_loop s.ext_neighbor_used s panid_ref c 0 none)

-- `zb_nwk_exneighbor_by_ieee`
unfoldable pub exneighbor_by_ieee : Neighbors → Addresses → ℕ → List ℕ → Handed
exneighbor_by_ieee s addresses panid_ref long_addr =
    ext_ieee_search s panid_ref long_addr (ieee_addr_compress addresses long_addr)

-- The entry of the base table that `zb_nwk_neighbor_ext_to_base_tmp` makes.
unfoldable pub base_of_ext : ExtNeighbor → ℕ → Neighbor
base_of_ext ext_ent addr_ref = record zero_neighbor {
  device_type = ext_ent.device_type;
  rx_on_when_idle = not (ext_ent.device_type == device_type_ed);
  relationship = none_of_the_above;
  used = true;
  addr_ref = addr_ref;
  lqi = ext_ent.lqi;
}

-- `zb_nwk_neighbor_ext_to_base_tmp`, on the outcome of the look-up of the long address; with none
-- for the reference, the code goes on with what its variable happens to hold.
unfoldable pub ext_to_base_at : Neighbors → ExtNeighbor → Outcome → Option (Neighbors × Addresses)
ext_to_base_at s ext_ent (some (ret, some addr_ref, addresses)) =
    let n = s.base_neighbor_used in
    some (
      record s {
        addr_to_neighbor = update s.addr_to_neighbor addr_ref (n % 256);
        base_neighbor_used = n + 1;
        base_neighbor = update s.base_neighbor n (base_of_ext ext_ent addr_ref);
      },
      addresses,
    )
ext_to_base_at s ext_ent other = none

-- `zb_nwk_neighbor_ext_to_base_tmp`: the code and the tables.
unfoldable pub neighbor_ext_to_base_tmp :
    Neighbors → Addresses → ExtNeighbor → Ret × Option (Neighbors × Addresses)
neighbor_ext_to_base_tmp s addresses ext_ent =
    let long_address = ieee_addr_decompress addresses ext_ent.long_addr in
    if leb s.base_neighbor_size s.base_neighbor_used
    then (no_memory, some (s, addresses))
    else (ok, ext_to_base_at s ext_ent (address_by_ieee addresses long_address true false))
