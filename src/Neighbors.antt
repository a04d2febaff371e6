-- ===== src/Neighbors.antt =====
-- The neighbour table of nwk/nwk_neighbor.c, as built for a router (no ZB_ED_ROLE) on a host: the
-- table itself, and the functions that find, make and delete its entries. An array is a function of
-- the index. The extended table lies behind the base table in the same memory; the model keeps the
-- two apart.
pub mod Ext
pub mod Start
pub mod Next
pub mod Valid
pub mod Pack
pub mod Run
pub mod Clock
use zboss.Base.{
  ℕ, zero, suc, ◌+◌, ◌-◌, ◌%◌, ◌^◌, Bool, true, false, ◌==◌, if◌then◌else◌, List, Option, none,
  some, update,
}
use zboss.Alarm.{Ret, ok, not_found, no_memory}
use zboss.Address.{Compressed, Addresses, address_lock}
use zboss.Address.Entries.{Outcome, zero_ieee, address_by_short, address_by_ieee}

-- `zb_neighbor_tbl_ent_t`
pub record Neighbor : Type 0 where
  pub addr_ref : ℕ
  pub permit_joining : ℕ
  pub device_type : ℕ
  pub depth : ℕ
  pub used : Bool
  pub rx_on_when_idle : Bool
  pub relationship : ℕ
  pub transmit_failure : ℕ
  pub lqi : ℕ
  pub incoming_frame_counter : ℕ
  pub key_seq_number : ℕ

-- `zb_ext_neighbor_tbl_ent_t`
pub record ExtNeighbor : Type 0 where
  pub short_addr : ℕ
  pub long_addr : Compressed
  pub lqi : ℕ
  pub update_id : ℕ
  pub logical_channel : ℕ
  pub panid_ref : ℕ
  pub beacon_order : ℕ
  pub depth : ℕ
  pub stack_profile : ℕ
  pub superframe_order : ℕ
  pub permit_joining : ℕ
  pub device_type : ℕ
  pub router_capacity : Bool
  pub end_device_capacity : Bool
  pub potential_parent : Bool

-- `zb_neighbor_tbl_t`
pub record Neighbors : Type 0 where
  pub base_neighbor : ℕ → Neighbor
  pub addr_to_neighbor : ℕ → ℕ
  pub base_neighbor_size : ℕ
  pub base_neighbor_used : ℕ
  pub ext_neighbor : ℕ → ExtNeighbor
  pub ext_neighbor_size : ℕ
  pub ext_neighbor_used : ℕ
  pub incoming_frame_counter_clock : ℕ

-- ZB_BZERO of an entry of the base table
abbrev pub zero_neighbor : Neighbor
zero_neighbor = record {
  addr_ref = 0;
  permit_joining = 0;
  device_type = 0;
  depth = 0;
  used = false;
  rx_on_when_idle = false;
  relationship = 0;
  transmit_failure = 0;
  lqi = 0;
  incoming_frame_counter = 0;
  key_seq_number = 0;
}

-- ZB_BZERO of an entry of the extended table
abbrev pub zero_ext_neighbor : ExtNeighbor
zero_ext_neighbor = record {
  short_addr = 0;
  long_addr = zero_ieee;
  lqi = 0;
  update_id = 0;
  logical_channel = 0;
  panid_ref = 0;
  beacon_order = 0;
  depth = 0;
  stack_profile = 0;
  superframe_order = 0;
  permit_joining = 0;
  device_type = 0;
  router_capacity = false;
  end_device_capacity = false;
  potential_parent = false;
}

-- ZB_NEIGHBOR_TABLE_SIZE
abbrev pub neighbor_table_size : ℕ
neighbor_table_size = 32

-- `(zb_uint8_t)-1`, for an address without an entry
abbrev pub no_neighbor : ℕ
no_neighbor = 255

-- ZB_NWK_RELATIONSHIP_NONE_OF_THE_ABOVE
abbrev pub none_of_the_above : ℕ
none_of_the_above = 3

-- ZB_NWK_DEVICE_TYPE_ED and ZB_NWK_DEVICE_TYPE_NONE
abbrev pub device_type_ed : ℕ
device_type_ed = 0

abbrev pub device_type_none : ℕ
device_type_none = 3

-- `zb_nwk_neighbor_init`
unfoldable pub neighbor_init : Neighbors → Neighbors
neighbor_init s = record s {
  addr_to_neighbor = λ _. no_neighbor;
  base_neighbor_size = neighbor_table_size;
}

-- `zb_nwk_neighbor_clear`
unfoldable pub neighbor_clear : Neighbors → Neighbors
neighbor_clear s = neighbor_init (record {
  base_neighbor = λ _. zero_neighbor;
  addr_to_neighbor = λ _. 0;
  base_neighbor_size = 0;
  base_neighbor_used = 0;
  ext_neighbor = λ _. zero_ext_neighbor;
  ext_neighbor_size = 0;
  ext_neighbor_used = 0;
  incoming_frame_counter_clock = 0;
})

-- `zb_nwk_neighbor_delete`
unfoldable pub neighbor_delete : Neighbors → ℕ → Ret × Neighbors
neighbor_delete s ieee_ref =
    let n = s.addr_to_neighbor ieee_ref in
    if n == no_neighbor then (not_found, s) else (
      ok,
      record s {
        addr_to_neighbor = update s.addr_to_neighbor ieee_ref no_neighbor;
        base_neighbor = update s.base_neighbor n (record (s.base_neighbor n) { used = false });
      },
    )

-- The code, the index of the entry handed out, if any, and the two tables; none where an assertion
-- fails.
abbrev pub Handed : Type 0
Handed = Option (Ret × Option ℕ × Neighbors × Addresses)

-- What `zb_nwk_neighbor_get` puts into a new entry, for a device of this depth.
unfoldable pub new_neighbor : ℕ → ℕ → Neighbor
new_neighbor depth addr = record zero_neighbor {
  used = true;
  addr_ref = addr;
  relationship = none_of_the_above;
  permit_joining = 2;
  depth = depth;
}

-- The new entry behind those in use; its address has been locked.
unfoldable pub create_neighbor : Neighbors → ℕ → ℕ → Option Addresses → Handed
create_neighbor s depth addr none = none
create_neighbor s depth addr (some addresses) =
    let n = s.base_neighbor_used % 256 in
    some (
      ok,
      some n,
      record s {
        addr_to_neighbor = update s.addr_to_neighbor addr n;
        base_neighbor_used = s.base_neighbor_used + 1;
        base_neighbor = update s.base_neighbor n (new_neighbor depth addr);
      },
      addresses,
    )

-- `zb_nwk_neighbor_get`, in a device of this depth.
unfoldable pub neighbor_get : Neighbors → Addresses → ℕ → ℕ → Bool → Handed
neighbor_get s addresses depth addr create_if_absent =
    let n = s.addr_to_neighbor addr in
    let full = s.base_neighbor_used == (s.base_neighbor_size + 2 ^ 32 - 1) % 2 ^ 32 in
    if n == no_neighbor
    then if create_if_absent
      then if full
        then some (no_memory, none, s, addresses)
        else create_neighbor s depth addr (address_lock addresses addr)
      else some (not_found, none, s, addresses)
    else some (ok, some n, s, addresses)

-- The second half of `zb_nwk_neighbor_get_by_short` and `zb_nwk_neighbor_get_by_ieee`, on the outcome
-- of the look-up.
unfoldable pub get_by : Neighbors → ℕ → Outcome → Handed
get_by s depth none = none
get_by s depth (some (ok, some ref, addresses)) = neighbor_get s addresses depth ref false
get_by s depth (some (ret, ref, addresses)) = some (not_found, none, s, addresses)

-- `zb_nwk_neighbor_get_by_short`
unfoldable pub neighbor_get_by_short : Neighbors → Addresses → ℕ → ℕ → Handed
neighbor_get_by_short s addresses depth short_addr =
    get_by s depth (address_by_short addresses short_addr false false)

-- `zb_nwk_neighbor_get_by_ieee`
unfoldable pub neighbor_get_by_ieee : Neighbors → Addresses → ℕ → List ℕ → Handed
neighbor_get_by_ieee s addresses depth long_addr =
    get_by s depth (address_by_ieee addresses long_addr false false)
