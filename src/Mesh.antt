-- ===== src/Mesh.antt =====
-- The path cost, the frames and the handler of route requests of nwk/nwk_cr_mesh_routing.c. What the
-- handler calls outside the tables is an event.
pub mod Types
pub mod Reply
pub mod Expiry
pub mod Discover
pub mod Valid
pub mod Counted
pub mod Run
pub mod Forward
pub mod Noted
pub mod Again
use zboss.Base.{
  ℕ, zero, suc, ◌+◌, ◌*◌, ◌-◌, ◌%◌, Bool, true, false, not, ◌&&◌, ◌||◌, ◌==◌, ltb, if◌then◌else◌,
  update, Option, none, some, List, [], ◌∷◌, ◌++◌,
}
use zboss.Slots.{
  Slot, Slots, array_find_ent, take_ent, array_get_ent, free_ent, array_put_ent, set_ent,
}
use zboss.Mesh.Types.{
  state_active, state_discovery_underway, state_validation_underway, Route, RouteDiscovery, Pend,
  Rreq, Rrep, Header, Mesh, Event, send_rreq, send_rrep, forward, free_buf, route_discovery_confirm,
}

-- The 8-bit loop `while ( 32*(i+1) < nbt->lqi )`, with the rounds left: 8 are enough.
unfoldable pub lqi_loop : ℕ → ℕ → ℕ → ℕ
lqi_loop zero lqi i = i
lqi_loop (suc k) lqi i =
    let rest = lqi_loop k lqi (i + 1) in if ltb (32 * (i + 1)) lqi then rest else i

-- NWK_CALC_PATH_COST; ZB_NWK_STATIC_PATH_COST is 7. `nbt` is what `zb_nwk_neighbor_get_by_short`
-- finds for an address: the neighbour's link quality.
unfoldable pub calc_path_cost : (ℕ → Option ℕ) → Mesh → ℕ → ℕ
unfolding lqi_loop
calc_path_cost nbt s src_addr = if s.nwk_report_constant_cost then 7 else elim (nbt src_addr) [
  | some lqi ↦ let i = lqi_loop 8 lqi 0 in if 7 - i == 0 then 1 else 7 - i
  | none ↦ if src_addr == s.network_address then 0 else 7
]

-- `nwk_get_mac_source_addr`, of a buffer's MAC header, if it has one: its source address.
unfoldable pub get_mac_source_addr : Option ℕ → Mesh → ℕ
get_mac_source_addr (some src_addr) s = src_addr
get_mac_source_addr none s = s.network_address

-- `zb_nwk_mesh_send_rreq`: the frame for `zb_nwk_forward`.
unfoldable pub mesh_send_rreq : Mesh → ℕ → Rreq → ℕ → ℕ → ℕ → ℕ → Event
mesh_send_rreq s cbuf cmd src_addr seq_num path_cost radius =
    send_rreq cbuf s.secure
      (record { rreq_id = cmd.rreq_id; dest_addr = cmd.dest_addr; path_cost = path_cost }) src_addr
      (if src_addr == s.network_address then none else some seq_num) radius

-- `zb_nwk_mesh_send_rrep`
unfoldable pub mesh_send_rrep : Mesh → ℕ → ℕ → ℕ → ℕ → ℕ → ℕ → Event
mesh_send_rrep s cbuf rreq_id originator responder path_cost sender_addr =
    send_rrep cbuf sender_addr s.secure
      (record {
        rreq_id = rreq_id;
        originator = originator;
        responder = responder;
        path_cost = path_cost;
      })
      (s.max_depth * 2 % 256)

-- The fields that are set in a new entry of the routing table.
unfoldable pub new_route : Route → ℕ → Route
new_route e dest_addr = record e { dest_addr = dest_addr; status = state_discovery_underway }

-- A new entry of the route discovery table.
unfoldable pub new_discovery : Header → Rreq → ℕ → ℕ → RouteDiscovery
new_discovery hdr cmd src_addr path_cost = record {
  request_id = cmd.rreq_id;
  source_addr = hdr.src_addr;
  sender_addr = src_addr;
  dest_addr = cmd.dest_addr;
  forward_cost = path_cost;
  residual_cost = 0xff;
  expiration_time = 10;
}

-- The entry for the destination of a request: the one there is, or a new one.
unfoldable pub rreq_route : Mesh → ℕ → Option ℕ × Mesh
unfolding new_route
rreq_route s dest_addr = elim (array_find_ent 5 (λ e. e.dest_addr == dest_addr) s.routing_table) [
  | some i ↦
      let e = (s.routing_table.array i).ent in
      if not (e.status == state_active) && not (e.status == state_validation_underway)
      then (
        some i,
        record s {
          routing_table =
              set_ent s.routing_table i (record e { status = state_discovery_underway });
        },
      )
      else (some i, s)
  | none ↦ elim (array_get_ent 5 s.routing_table) [
    | some (i, t) ↦
        (some i, record s { routing_table = set_ent t i (new_route ((t.array i).ent) dest_addr) })
    | none ↦ (none, s)
  ]
]

-- What becomes of a request at the route discovery table: it is passed on, it brings nothing new, or
-- there is no room for it.
pub data Heard : Type 0 where
  passed_on : Heard
  nothing_new : Heard
  no_room : Heard

unfoldable pub rreq_disc : Mesh → Option ℕ → Header → Rreq → ℕ → Heard × Mesh
unfolding get_mac_source_addr new_discovery
rreq_disc s mac_src hdr cmd path_cost =
    elim (array_find_ent 5 (λ e. (e.request_id == cmd.rreq_id) && (e.source_addr == hdr.src_addr))
      s.route_disc_table) [
        | some j ↦
            let e = (s.route_disc_table.array j).ent in
            if ltb path_cost e.forward_cost
            then (
              passed_on,
              record s {
                route_disc_table = set_ent s.route_disc_table j (record e {
                  sender_addr = get_mac_source_addr mac_src s;
                  forward_cost = path_cost;
                });
              },
            )
            else (nothing_new, s)
        | none ↦ elim (array_get_ent 5 s.route_disc_table) [
          | some (j, t) ↦ (
            passed_on,
            record s {
              route_disc_table =
                  set_ent t j (new_discovery hdr cmd (get_mac_source_addr mac_src s) path_cost);
            },
          )
          | none ↦ (no_room, s)
        ]
      ]

-- From the label `done`, with RET_NO_MEMORY: the entry of the route is freed, and the buffer is used
-- for a confirm or freed. There is no entry of the route discovery table then.
unfoldable pub rreq_failed : Mesh → ℕ → Option ℕ → ℕ → List Event × Mesh
rreq_failed s buf routing_ent dest_addr = (
  if not (s.aps_rreq_addr == 0) && (s.aps_rreq_addr == dest_addr)
      then route_discovery_confirm buf 0xd1 0 ∷ []
      else free_buf buf ∷ [],
  record s { routing_table = array_put_ent s.routing_table routing_ent },
)

-- The answer to a request that is passed on.
unfoldable pub rreq_answer : (ℕ → Option ℕ) → Mesh → ℕ → Option ℕ → Header → Rreq → ℕ → Event
unfolding mesh_send_rreq mesh_send_rrep get_mac_source_addr
rreq_answer nbt s buf mac_src hdr cmd path_cost =
    let reply =
      mesh_send_rrep s buf cmd.rreq_id hdr.src_addr cmd.dest_addr path_cost
        (get_mac_source_addr mac_src s) in
    if cmd.dest_addr == s.network_address then reply else elim (nbt cmd.dest_addr) [
      | some lqi ↦ reply
      | none ↦ mesh_send_rreq s buf cmd hdr.src_addr hdr.seq_num path_cost hdr.radius
    ]

unfoldable pub rreq_path_cost : (ℕ → Option ℕ) → Mesh → Header → Rreq → ℕ
unfolding calc_path_cost
rreq_path_cost nbt s hdr cmd = (calc_path_cost nbt s hdr.src_addr + cmd.path_cost) % 256

-- The rest of the handler, behind the route discovery table; `i` is the entry of the route.
unfoldable pub rreq_heard :
    (ℕ → Option ℕ) → ℕ → Option ℕ → Header → Rreq → ℕ → ℕ → Heard × Mesh → List Event × Mesh
unfolding rreq_failed rreq_answer
rreq_heard nbt buf mac_src hdr cmd path_cost i (passed_on, s) =
    (rreq_answer nbt s buf mac_src hdr cmd path_cost ∷ [], s)
rreq_heard nbt buf mac_src hdr cmd path_cost i (nothing_new, s) = (free_buf buf ∷ [], s)
rreq_heard nbt buf mac_src hdr cmd path_cost i (no_room, s) =
    rreq_failed s buf (some i) cmd.dest_addr

-- The rest of the handler, behind the routing table.
unfoldable pub rreq_routed :
    (ℕ → Option ℕ) → ℕ → Option ℕ → Header → Rreq → ℕ → Option ℕ × Mesh → List Event × Mesh
unfolding rreq_disc rreq_failed rreq_heard
rreq_routed nbt buf mac_src hdr cmd path_cost (none, s) = rreq_failed s buf none cmd.dest_addr
rreq_routed nbt buf mac_src hdr cmd path_cost (some i, s) =
    rreq_heard nbt buf mac_src hdr cmd path_cost i (rreq_disc s mac_src hdr cmd path_cost)

-- `zb_nwk_mesh_rreq_handler`: what it calls, and the tables.
unfoldable pub mesh_rreq_handler :
    (ℕ → Option ℕ) → Mesh → ℕ → Option ℕ → Header → Rreq → List Event × Mesh
unfolding rreq_route rreq_path_cost rreq_routed
mesh_rreq_handler nbt s buf mac_src hdr cmd =
    rreq_routed nbt buf mac_src hdr cmd (rreq_path_cost nbt s hdr cmd) (rreq_route s cmd.dest_addr)
