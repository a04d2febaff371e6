-- ===== src/Mesh/Reply.antt =====
-- The handler of route replies of nwk/nwk_cr_mesh_routing.c.
use zboss.Base.{
  ℕ, zero, suc, ◌+◌, ◌%◌, ◌&&◌, ◌==◌, ltb, if◌then◌else◌, Option, none, some, List, [], ◌∷◌, ◌++◌,
}
use zboss.Slots.{Slots, array_find_ent, free_ent, array_put_ent, set_ent}
use zboss.Mesh.Types.{
  state_discovery_underway, state_validation_underway, Pend, Rrep, Header, Mesh, Event, forward,
  free_buf, route_discovery_confirm,
}
use zboss.Mesh.{calc_path_cost, get_mac_source_addr, mesh_send_rrep}

-- The loop over the pending table when a route is found, for `k` entries from the `i`-th on.
unfoldable pub pending_loop : ℕ → ℕ → Slots Pend → ℕ → List Event × Slots Pend
pending_loop zero dest_addr t i = ([], t)
pending_loop (suc k) dest_addr t i =
    let e = (t.array i).ent in
    let wanted = (t.array i).used && (e.dest_addr == dest_addr) in
    let rest = pending_loop k dest_addr (if wanted then free_ent t i else t) (i + 1) in
    (if wanted then forward e.buf e.handle ∷ rest.0 else rest.0, rest.1)

-- A reply to this device's own request: the frames that wait are forwarded, and the upper layer is told.
unfoldable pub rrep_arrived : Mesh → ℕ → ℕ → List Event × Mesh
unfolding pending_loop
rrep_arrived s buf dest_addr =
    let found = pending_loop 5 dest_addr s.pending_table 0 in
    let events = found.0 in
    let t = found.1 in
    if s.aps_rreq_addr == dest_addr
    then (
      events ++ (route_discovery_confirm buf 0 0xff ∷ free_buf buf ∷ []),
      record s { pending_table = t; aps_rreq_addr = 0xffff },
    )
    else (events ++ (free_buf buf ∷ []), record s { pending_table = t })

-- The new route, from the reply.
unfoldable pub rrep_update : Mesh → ℕ → ℕ → ℕ → ℕ → Mesh
rrep_update s i j src_addr path_cost =
    let r = (s.routing_table.array i).ent in
    let d = (s.route_disc_table.array j).ent in
    record s {
      route_disc_table =
          set_ent s.route_disc_table j
            (record d { residual_cost = path_cost; expiration_time = 10 });
      routing_table = set_ent s.routing_table i (record r {
        next_hop_addr = src_addr;
        status =
            if r.status == state_discovery_underway then state_validation_underway else r.status;
      });
    }

-- `zb_nwk_mesh_rrep_handler`.
unfoldable pub mesh_rrep_handler :
    (ℕ → Option ℕ) → Mesh → ℕ → Option ℕ → Header → Rrep → List Event × Mesh
unfolding calc_path_cost get_mac_source_addr rrep_update rrep_arrived mesh_send_rrep
mesh_rrep_handler nbt s buf mac_src hdr cmd =
    let src_addr = get_mac_source_addr mac_src s in
    let path_cost = (calc_path_cost nbt s hdr.src_addr + cmd.path_cost) % 256 in
    let disc_ent =
      array_find_ent 5 (λ e. (e.request_id == cmd.rreq_id) && (e.source_addr == cmd.originator))
        s.route_disc_table in
    let routing_ent = array_find_ent 5 (λ e. e.dest_addr == cmd.responder) s.routing_table in
    elim disc_ent [
      | none ↦ (
        free_buf buf ∷ [],
        record s { routing_table = array_put_ent s.routing_table routing_ent },
      )
      | some j ↦ elim routing_ent [
        | none ↦ (free_buf buf ∷ [], record s { route_disc_table = free_ent s.route_disc_table j })
        | some i ↦
            let d = (s.route_disc_table.array j).ent in
            let s1 = rrep_update s i j src_addr path_cost in
            if ltb d.residual_cost path_cost
            then (free_buf buf ∷ [], s)
            else if cmd.originator == s.network_address
            then rrep_arrived s1 buf ((s.routing_table.array i).ent.dest_addr)
            else (
              mesh_send_rrep s1 buf cmd.rreq_id cmd.originator cmd.responder path_cost d.sender_addr
                  ∷ [],
              s1,
            )
      ]
    ]
