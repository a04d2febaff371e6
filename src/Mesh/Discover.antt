-- ===== src/Mesh/Discover.antt =====
-- The functions of nwk/nwk_cr_mesh_routing.c that the network layer calls: looking up a route, keeping
-- a frame until there is one, and starting a route discovery, also for the upper layer
-- (nwk/nwk_cr_route_discovery.c).
use zboss.Base.{
  ℕ, ◌+◌, ◌*◌, ◌%◌, Bool, true, false, not, ◌&&◌, ◌==◌, if◌then◌else◌, Option, none, some, List, [],
  ◌∷◌, bit_and,
}
use zboss.Slots.{array_find_ent, array_get_ent, set_ent}
use zboss.Mesh.{mesh_rreq_handler}
use zboss.Mesh.Types.{Mesh, Event, free_buf, initiate_delayed, route_discovery_confirm}

-- `zb_nwk_mesh_find_route`
unfoldable pub mesh_find_route : Mesh → ℕ → Option ℕ
mesh_find_route s dest_addr = array_find_ent 5 (λ e. e.dest_addr == dest_addr) s.routing_table

-- `zb_nwk_mesh_find_route_discovery_entry`
unfoldable pub mesh_find_route_discovery_entry : Mesh → ℕ → Option ℕ
mesh_find_route_discovery_entry s dest_addr =
    array_find_ent 5 (λ e. e.dest_addr == dest_addr) s.route_disc_table

-- `zb_nwk_mesh_add_buf_to_pending`, of a frame to the address: whether it returns RET_OK or
-- RET_NO_MEMORY.
unfoldable pub mesh_add_buf_to_pending : Mesh → ℕ → ℕ → ℕ → Bool × Mesh
mesh_add_buf_to_pending s buf dst_addr handle = elim (array_get_ent 5 s.pending_table) [
  | some (i, t) ↦ (
    true,
    record s {
      pending_table = set_ent t i (record {
        buf = buf;
        handle = handle;
        dest_addr = dst_addr;
        expiry = 20;
        waiting_buf = true;
      });
    },
  )
  | none ↦ (false, s)
]

-- `zb_nwk_mesh_route_discovery` with a buffer, whose MAC header may have a source address and whose
-- octet for the sequence number is `seq_num`.
unfoldable pub route_discovery :
    (ℕ → Option ℕ) → Mesh → ℕ → Option ℕ → ℕ → ℕ → ℕ → List Event × Mesh
route_discovery nbt s cbuf mac_src seq_num dest_addr radius =
    let id = (s.rreq_id + 1) % 256 in
    mesh_rreq_handler nbt (record s { rreq_id = id }) cbuf mac_src
      (record {
        src_addr = s.network_address;
        seq_num = seq_num;
        radius = if radius == 0 then s.max_depth * 2 % 256 else radius;
      })
      (record { rreq_id = id; dest_addr = dest_addr; path_cost = 0 })

-- `zb_nwk_mesh_route_discovery`, with NULL for none.
unfoldable pub mesh_route_discovery :
    (ℕ → Option ℕ) → Mesh → Option ℕ → Option ℕ → ℕ → ℕ → ℕ → List Event × Mesh
unfolding route_discovery
mesh_route_discovery nbt s (some cbuf) mac_src seq_num dest_addr radius =
    route_discovery nbt s cbuf mac_src seq_num dest_addr radius
mesh_route_discovery nbt s none mac_src seq_num dest_addr radius = (initiate_delayed ∷ [], s)

-- `ent->waiting_buf = 0`
unfoldable pub wait_over : Mesh → ℕ → Mesh
wait_over s i = record s {
  pending_table =
      set_ent s.pending_table i (record ((s.pending_table.array i).ent) { waiting_buf = false });
}

-- `zb_nwk_mesh_initiate_route_discovery`, where `dst_of` gives the destination in the network header
-- of a buffer. With no entry that waits it frees the buffer and fails an assertion.
unfoldable pub mesh_initiate_route_discovery :
    (ℕ → Option ℕ) → Mesh → ℕ → Option ℕ → ℕ → (ℕ → ℕ) → List Event × Mesh
unfolding mesh_route_discovery wait_over
mesh_initiate_route_discovery nbt s cbuf mac_src seq_num dst_of =
    elim (array_find_ent 5 (λ e. e.waiting_buf) s.pending_table) [
      | some i ↦
          let dest_addr = dst_of ((s.pending_table.array i).ent.buf) in
          let started = mesh_route_discovery nbt s (some cbuf) mac_src seq_num dest_addr 0 in
          (started.0, wait_over (started.1) i)
      | none ↦ (free_buf cbuf ∷ [], s)
    ]

-- The fields of `zb_nlme_route_discovery_request_t` that are read.
pub record Request : Type 0 where
  pub address_mode : ℕ
  pub network_addr : ℕ
  pub radius : ℕ

-- ZB_NWK_IS_ADDRESS_BROADCAST
unfoldable pub is_address_broadcast : ℕ → Bool
is_address_broadcast addr = bit_and addr 0xfff0 == 0xfff0

-- `zb_nlme_route_discovery_request`, with whether the device is a coordinator or a router.
unfoldable pub nlme_route_discovery_request :
    (ℕ → Option ℕ) → Bool → Mesh → ℕ → Option ℕ → ℕ → Request → List Event × Mesh
unfolding mesh_route_discovery is_address_broadcast
nlme_route_discovery_request nbt is_router s buf mac_src seq_num request =
    let refused : List Event × Mesh = (route_discovery_confirm buf 0xc2 0 ∷ [], s) in
    let there : List Event × Mesh = (route_discovery_confirm buf 0 0xff ∷ [], s) in
    if not is_router
    then refused
    else if not (request.address_mode == 0) && is_address_broadcast request.network_addr
    then refused
    else if (request.address_mode == 2) && (request.network_addr == s.network_address)
    then there
    else elim (nbt request.network_addr) [
      | some lqi ↦ there
      | none ↦
          if request.address_mode == 2
          then mesh_route_discovery nbt (record s { aps_rreq_addr = request.network_addr })
              (some buf) mac_src seq_num request.network_addr request.radius
          else refused
    ]
