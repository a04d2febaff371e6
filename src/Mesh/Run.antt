-- ===== src/Mesh/Run.antt =====
-- Runs of the operations of mesh routing on the tables.
use zboss.Base.{
  ℕ, zero, suc, ◌+◌, ◌%◌, ◌<◌, ◌≤◌, arith, Bool, ◌&&◌, ◌==◌, ltb, Bool-cases, inl, inr, Option,
  none, some, Option-cases,
}
use zboss.Slots.{array_find_ent, array_put_ent}
use zboss.Slots.Count.{array_find_ent-some, set_ent-IsCounted}
use zboss.Mesh.Types.{Route, RouteDiscovery, Rreq, Rrep, Header, Mesh}
use zboss.Mesh.{calc_path_cost, get_mac_source_addr, mesh_rreq_handler}
use zboss.Mesh.Reply.{rrep_update, mesh_rrep_handler}
use zboss.Mesh.Expiry.{disc_loop, tick_disc, mesh_expiry_route_disc, mesh_expiry_pending}
use zboss.Mesh.Discover.{
  mesh_add_buf_to_pending, route_discovery, mesh_route_discovery, wait_over,
  mesh_initiate_route_discovery,
}
use zboss.Mesh.Valid.{IsValid, found_set, found_freed, mesh_rreq_handler-IsValid}
use zboss.Mesh.Counted.{
  rrep_arrived-IsValid, mesh_expiry_pending-IsValid, mesh_add_buf_to_pending-IsValid,
  tick_disc-IsValid,
}

disc_loop-IsValid :
    (k : ℕ) (s : Mesh) (i : ℕ) → IsValid s → k + i ≤ 5 → IsValid ((disc_loop k s i).1)
unfolding disc_loop
disc_loop-IsValid zero s i v h = v
disc_loop-IsValid (suc k) s i v h =
    let below : i < 5 = omega arith in
    let t = tick_disc-IsValid s v i below in
    elim (Bool-cases ((tick_disc s i).0)) [
      | inl ended ↦ rw ended t
      | inr going ↦ rw going (disc_loop-IsValid k _ (i + 1) t (omega arith))
    ]

mesh_expiry_route_disc-IsValid : (s : Mesh) → IsValid s → IsValid ((mesh_expiry_route_disc s).1)
unfolding mesh_expiry_route_disc
mesh_expiry_route_disc-IsValid s v =
    let looped = disc_loop-IsValid 5 s 0 v (omega arith) in
    elim (Bool-cases (s.route_disc_table.cnt == 0)) [
      | inl empty ↦ rw empty v
      | inr more ↦ elim (Bool-cases ((disc_loop 5 s 0).0)) [
        | inl ended ↦ rw (more, ended) looped
        | inr through ↦ rw (more, through) looped
      ]
    ]

-- `zb_nwk_mesh_rrep_handler`
module _ (nbt : ℕ → Option ℕ) (s : Mesh) (v : IsValid s) (buf : ℕ) where
  module _ (mac_src : Option ℕ) (hdr : Header) (cmd : Rrep) where
    mesh_rrep_handler-IsValid : IsValid ((mesh_rrep_handler nbt s buf mac_src hdr cmd).1)
    unfolding mesh_rrep_handler rrep_update array_put_ent
    mesh_rrep_handler-IsValid =
        let of_request : RouteDiscovery → Bool =
          λ e. (e.request_id == cmd.rreq_id) && (e.source_addr == cmd.originator) in
        let to_responder : Route → Bool = λ e. e.dest_addr == cmd.responder in
        let src_addr = get_mac_source_addr mac_src s in
        let cost = (calc_path_cost nbt s hdr.src_addr + cmd.path_cost) % 256 in
        elim (Option-cases (array_find_ent 5 of_request s.route_disc_table)) [
          | inl no_disc ↦ elim (Option-cases (array_find_ent 5 to_responder s.routing_table)) [
            | inl no_route ↦ rw (mesh_rrep_handler, no_disc, no_route) v
            | inr (i, at) ↦
                rw (mesh_rrep_handler, no_disc, at)
                  (record {
                    routes = found_freed s.routing_table v.routes to_responder i at;
                    discoveries = v.discoveries;
                    pending = v.pending;
                  })
          ]
          | inr (j, known) ↦ elim (Option-cases (array_find_ent 5 to_responder s.routing_table)) [
            | inl no_route ↦
                rw (mesh_rrep_handler, known, no_route)
                  (record {
                    routes = v.routes;
                    discoveries = found_freed s.route_disc_table v.discoveries of_request j known;
                    pending = v.pending;
                  })
            | inr (i, at) ↦
                let updated : IsValid (rrep_update s i j src_addr cost) = record {
                  routes = found_set s.routing_table v.routes to_responder i _ at;
                  discoveries = found_set s.route_disc_table v.discoveries of_request j _ known;
                  pending = v.pending;
                } in
                elim (Bool-cases (ltb ((s.route_disc_table.array j).ent.residual_cost) cost)) [
                  | inl dear ↦ rw (mesh_rrep_handler, known, at, dear) v
                  | inr fair ↦ elim (Bool-cases (cmd.originator == s.network_address)) [
                    | inl mine ↦
                        rw (mesh_rrep_handler, known, at, fair, mine)
                          (rrep_arrived-IsValid _ updated buf _)
                    | inr other ↦ rw (mesh_rrep_handler, known, at, fair, other) updated
                  ]
                ]
          ]
        ]

-- The operations that start a route discovery.
module _ (nbt : ℕ → Option ℕ) (s : Mesh) (v : IsValid s) (mac_src : Option ℕ) (seq_num : ℕ) where
  mesh_route_discovery-IsValid :
      (cbuf : Option ℕ) (dest_addr radius : ℕ)
      → IsValid ((mesh_route_discovery nbt s cbuf mac_src seq_num dest_addr radius).1)
  unfolding mesh_route_discovery route_discovery
  mesh_route_discovery-IsValid (some cbuf) dest_addr radius =
      mesh_rreq_handler-IsValid nbt cbuf mac_src _ _ _
        (record { routes = v.routes; discoveries = v.discoveries; pending = v.pending })
  mesh_route_discovery-IsValid none dest_addr radius = v

  mesh_initiate_route_discovery-IsValid :
      (cbuf : ℕ) (dst_of : ℕ → ℕ)
      → IsValid ((mesh_initiate_route_discovery nbt s cbuf mac_src seq_num dst_of).1)
  unfolding mesh_initiate_route_discovery wait_over
  mesh_initiate_route_discovery-IsValid cbuf dst_of =
      elim (Option-cases (array_find_ent 5 (λ e. e.waiting_buf) s.pending_table)) [
        | inl nobody ↦ rw (mesh_initiate_route_discovery, nobody) v
        | inr (i, at) ↦
            let (below, used, waits) = array_find_ent-some 5 _ s.pending_table i at in
            let dest_addr = dst_of ((s.pending_table.array i).ent.buf) in
            let t = mesh_route_discovery-IsValid (some cbuf) dest_addr 0 in
            rw (mesh_initiate_route_discovery, at)
              (record {
                routes = t.routes;
                discoveries = t.discoveries;
                pending = set_ent-IsCounted 5 (omega arith) _ t.pending i _ below;
              })
      ]

-- One call, as a change of the tables.
pub data MeshStep (s : Mesh) : Mesh → Type 0 where
  rreq :
      (nbt : ℕ → Option ℕ) (buf : ℕ) (mac_src : Option ℕ) (hdr : Header) (cmd : Rreq)
      → MeshStep s ((mesh_rreq_handler nbt s buf mac_src hdr cmd).1)
  rrep :
      (nbt : ℕ → Option ℕ) (buf : ℕ) (mac_src : Option ℕ) (hdr : Header) (cmd : Rrep)
      → MeshStep s ((mesh_rrep_handler nbt s buf mac_src hdr cmd).1)
  add_pending :
      (buf dst_addr handle : ℕ) → MeshStep s ((mesh_add_buf_to_pending s buf dst_addr handle).1)
  discover :
      (nbt : ℕ → Option ℕ) (mac_src : Option ℕ) (seq_num : ℕ) (cbuf : Option ℕ)
      (dest_addr radius : ℕ)
      → MeshStep s ((mesh_route_discovery nbt s cbuf mac_src seq_num dest_addr radius).1)
  initiate :
      (nbt : ℕ → Option ℕ) (mac_src : Option ℕ) (seq_num cbuf : ℕ) (dst_of : ℕ → ℕ)
      → MeshStep s ((mesh_initiate_route_discovery nbt s cbuf mac_src seq_num dst_of).1)
  expire_discoveries : MeshStep s ((mesh_expiry_route_disc s).1)
  expire_pending : MeshStep s ((mesh_expiry_pending s).1)

-- Calls one after the other.
pub data MeshRun (s : Mesh) : Mesh → Type 0 where
  start : MeshRun s s
  next : {t u : Mesh} → MeshRun s t → MeshStep t u → MeshRun s u

MeshStep-IsValid : (s t : Mesh) → IsValid s → MeshStep s t → IsValid t
MeshStep-IsValid s _ v (rreq nbt buf mac_src hdr cmd) =
    mesh_rreq_handler-IsValid nbt buf mac_src hdr cmd s v
MeshStep-IsValid s _ v (rrep nbt buf mac_src hdr cmd) =
    mesh_rrep_handler-IsValid nbt s v buf mac_src hdr cmd
MeshStep-IsValid s _ v (add_pending buf dst_addr handle) =
    mesh_add_buf_to_pending-IsValid s v buf dst_addr handle
MeshStep-IsValid s _ v (discover nbt mac_src seq_num cbuf dest_addr radius) =
    mesh_route_discovery-IsValid nbt s v mac_src seq_num cbuf dest_addr radius
MeshStep-IsValid s _ v (initiate nbt mac_src seq_num cbuf dst_of) =
    mesh_initiate_route_discovery-IsValid nbt s v mac_src seq_num cbuf dst_of
MeshStep-IsValid s _ v expire_discoveries = mesh_expiry_route_disc-IsValid s v
MeshStep-IsValid s _ v expire_pending = mesh_expiry_pending-IsValid s v

-- From tables whose counters are right, every run of the handlers of route requests and route replies,
-- of the functions that keep a pending frame and start a route discovery, and of the periodical
-- functions leaves the counters of routes, of route discoveries and of pending frames equal to the
-- number of used entries, of which each table has five.
pub MeshRun-IsValid : (s t : Mesh) → IsValid s → MeshRun s t → IsValid t
MeshRun-IsValid s t v start = v
MeshRun-IsValid s t v (next {t = u} r st) = MeshStep-IsValid u t (MeshRun-IsValid s u v r) st
