-- ===== src/Tests/Neighbors.antt =====
-- Neighbour tables, empty and with a few entries.
use zboss.Base.{
  ℕ, ◌<◌, ◌≤◌, ◌≡◌, refl, arith, Bool, true, false, not, ◌==◌, none, some, ◌⊎◌, update,
}
use zboss.Alarm.{ok, not_found, no_memory}
use zboss.Address.{Addresses, address_lock}
use zboss.Address.Entries.{zero_ieee}
use zboss.Neighbors.{
  Neighbors, zero_neighbor, zero_ext_neighbor, neighbor_init, neighbor_clear, neighbor_get,
  neighbor_delete, create_neighbor,
}
use zboss.Neighbors.Valid.{IsValid, with_entry}
use zboss.Neighbors.Run.{start, next, get, Run-IsValid, neighbor_get-neighbor_get}
use zboss.Neighbors.Start.{pack}
use zboss.Neighbors.Pack.{pack-gap}
use zboss.Neighbors.Ext.{exneighbor_by_short, is_ext_short}
use zboss.Neighbors.Ext.Find.{IsFor, exneighbor_by_short-exneighbor_by_short}
use zboss.Neighbors.Clock.{clocked, Expired, clocked-Expired}

abbrev addresses : Addresses
addresses = record {
  used_manufacturer = λ i. false;
  device_manufacturer = λ i. zero_ieee.device_id;
  ieee_addr = λ i. zero_ieee;
  used = λ i. true;
  lock_cnt = λ i. 0;
  clock = λ i. false;
  shorts = record { addr = λ i. i; short_sorted = λ i. i; n_sorted_elements = 0 };
  n_elements = 101;
  clock_i = 0;
}

abbrev locked_addresses : Addresses
locked_addresses = record addresses {
  lock_cnt = update addresses.lock_cnt 5 1;
  clock = update addresses.clock 5 true;
}

-- The first place is free, the next two are in use.
abbrev holed : Neighbors
holed = record {
  base_neighbor =
      λ i. record zero_neighbor { used = not (i == 0); addr_ref = i; rx_on_when_idle = (i == 2) };
  addr_to_neighbor = λ a. a;
  base_neighbor_size = 3;
  base_neighbor_used = 3;
  ext_neighbor = λ i. zero_ext_neighbor;
  ext_neighbor_size = 2;
  ext_neighbor_used = 1;
  incoming_frame_counter_clock = 1;
}

abbrev cleared : Neighbors
cleared = neighbor_clear holed

abbrev with_five : Neighbors
with_five = with_entry cleared 2 5

with_five_got :
    neighbor_get cleared addresses 2 5 true ≡ some (ok, some 0, with_five, locked_addresses)
unfolding neighbor_get neighbor_clear neighbor_init create_neighbor address_lock
with_five_got = refl

Run-IsValid_example : IsValid with_five
Run-IsValid_example =
    Run-IsValid holed
      (next start (get 2 5 true ok (some 0) addresses locked_addresses with_five_got))

cleared-IsValid : IsValid cleared
cleared-IsValid = Run-IsValid holed start

neighbor_get-neighbor_get_example :
    (0 < with_five.base_neighbor_used)
    × ((with_five.base_neighbor 0).used ≡ true)
    × ((with_five.base_neighbor 0).addr_ref ≡ 5)
    × ((c : Addresses) (again : Bool)
        → neighbor_get with_five c 2 5 again ≡ some (ok, some 0, with_five, c))
    × ((c : Addresses)
        → let u = (neighbor_delete with_five 5).1 in
          neighbor_get u c 2 5 false ≡ some (not_found, none, u, c))
neighbor_get-neighbor_get_example =
    neighbor_get-neighbor_get cleared addresses locked_addresses 2 5 0 true with_five
      cleared-IsValid with_five_got

pack-gap_example :
    ((pack holed).base_neighbor 0 ≡ holed.base_neighbor 1)
    × (((pack holed).base_neighbor 1).used ≡ false)
    × ((pack holed).base_neighbor 2 ≡ holed.base_neighbor 2)
pack-gap_example = pack-gap holed (omega arith) (omega arith) refl refl refl

exneighbor_by_short-exneighbor_by_short_example :
    let (ret, i, s') = exneighbor_by_short holed 1 7 in
    ((ret ≡ ok) × IsFor 1 7 s' i × (exneighbor_by_short s' 1 7 ≡ (ok, i, s')))
    ⊎ ((ret ≡ no_memory)
        × (s' ≡ holed)
        × ◌≡◌ {A = ℕ} 1 2
        × ((j : ℕ) → j < 1 → is_ext_short holed 1 7 j ≡ false))
exneighbor_by_short-exneighbor_by_short_example = exneighbor_by_short-exneighbor_by_short holed 1 7

holed_octets : (i : ℕ) → i < 3 → (holed.base_neighbor i).key_seq_number < 256
holed_octets i inside = ground arith

clocked-Expired_example :
    let t = clocked 3 holed 200 in
    (t.base_neighbor_size ≡ 3)
    × ((i : ℕ) → i < 3 → Expired 200 (holed.base_neighbor i) (t.base_neighbor i))
    × ((i : ℕ) → 3 ≤ i → t.base_neighbor i ≡ holed.base_neighbor i)
clocked-Expired_example = clocked-Expired holed 200 (omega arith) holed_octets
