-- ===== src/Mesh/Valid.antt =====
-- The counters of the three tables of mesh routing stay right.
use zboss.Base.{
  ℕ, ◌<◌, ◌≡◌, refl, ap, subst, arith, Bool, true, ◌&&◌, ◌==◌, ltb, not, some-inj, ◌∙◌, Bool-cases,
  inl, inr, Option, none, some, Option-cases,
}
use zboss.Slots.{Slots, take_ent, array_find_ent, free_ent, array_put_ent, set_ent}
use zboss.Slots.Count.{
  IsCounted, set_ent-used, take_ent-used, array_find_ent-some, set_ent-IsCounted,
  free_ent-IsCounted, array_get_ent-cases,
}
use zboss.Mesh.Types.{
  state_active, state_discovery_underway, state_validation_underway, Route, RouteDiscovery, Rreq,
  Header, Mesh,
}
use zboss.Mesh.{
  new_route, rreq_route, rreq_disc, Heard, passed_on, nothing_new, no_room, rreq_failed, rreq_heard,
  rreq_routed, mesh_rreq_handler,
}

abbrev pub Counted : {A : Type 0} → Slots A → Type 0
Counted t = IsCounted 5 t

-- Each counter is the number of used entries.
pub record IsValid (s : Mesh) : Type 0 where
  pub routes : Counted s.routing_table
  pub discoveries : Counted s.route_disc_table
  pub pending : Counted s.pending_table

-- What the two array macros find is valid, for five entries.
module _ {A : Type 0} (t : Slots A) (c : Counted t) where
  pub found_set :
      (condition : A → Bool) (i : ℕ) (v : A)
      → array_find_ent 5 condition t ≡ some i
      → Counted (set_ent t i v)
  found_set condition i v e =
      let (below, used, holds) = array_find_ent-some 5 condition t i e in
      set_ent-IsCounted 5 (omega arith) t c i v below

  pub found_freed :
      (condition : A → Bool) (i : ℕ)
      → array_find_ent 5 condition t ≡ some i
      → Counted (free_ent t i)
  found_freed condition i e =
      let (below, used, holds) = array_find_ent-some 5 condition t i e in
      free_ent-IsCounted 5 (omega arith) t c i below used

-- What an operation leaves, with the entry that it found or added in the routing table.
pub record Ready (o : Option ℕ × Mesh) : Type 0 where
  pub valid : IsValid (o.1)
  pub entry : (i : ℕ) → o.0 ≡ some i → (i < 5) × (((o.1).routing_table.array i).used ≡ true)

module _ (s : Mesh) (v : IsValid s) where
  at_entry :
      (i : ℕ) (t : Slots Route)
      → i < 5
      → (t.array i).used ≡ true
      → Counted t
      → Ready (some i, record s { routing_table = t })
  at_entry i t below used counted = record {
    valid = record { routes = counted; discoveries = v.discoveries; pending = v.pending };
    entry = λ j e.
        let same = some-inj e in
        subst (λ k. (k < 5) × ((t.array k).used ≡ true)) same (below, used);
  }

  pub rreq_route-Ready : (dest_addr : ℕ) → Ready (rreq_route s dest_addr)
  unfolding rreq_route
  rreq_route-Ready dest_addr =
      elim (Option-cases (array_find_ent 5 (λ e. e.dest_addr == dest_addr) s.routing_table)) [
        | inl new ↦ elim (array_get_ent-cases 5 (omega arith) s.routing_table v.routes) [
          | inl full ↦
              rw (rreq_route, new, full)
                (record { valid = v; entry = λ i e. absurd (ground arith) })
          | inr (i, below, at, counted) ↦
              rw (rreq_route, new, at)
                (let t = take_ent s.routing_table i in
                  let e = new_route ((t.array i).ent) dest_addr in
                  at_entry i (set_ent t i e) below
                    (set_ent-used t i e i ∙ take_ent-used s.routing_table i)
                    (set_ent-IsCounted 5 (omega arith) t counted i e below))
        ]
        | inr (i, at) ↦
            let (below, used, same) = array_find_ent-some 5 _ s.routing_table i at in
            let status = (s.routing_table.array i).ent.status in
            elim (Bool-cases
              (not (status == state_active) && not (status == state_validation_underway))) [
                | inl reset ↦
                    rw (rreq_route, at, reset)
                      (let e = record ((s.routing_table.array i).ent) {
                        status = state_discovery_underway;
                      } in
                        at_entry i (set_ent s.routing_table i e) below
                          (set_ent-used s.routing_table i e i ∙ used)
                          (set_ent-IsCounted 5 (omega arith) s.routing_table v.routes i e below))
                | inr kept ↦
                    rw (rreq_route, at, kept) (at_entry i s.routing_table below used v.routes)
              ]
      ]

-- The request at the route discovery table, which leaves the routing table.
record Disc (s : Mesh) (o : Heard × Mesh) : Type 0 where
  valid : IsValid (o.1)
  routing : (o.1).routing_table ≡ s.routing_table

module _ (s : Mesh) (v : IsValid s) (mac_src : Option ℕ) (hdr : Header) (cmd : Rreq) where
  with_discoveries :
      (heard : Heard) (t : Slots RouteDiscovery)
      → Counted t
      → Disc s (heard, record s { route_disc_table = t })
  with_discoveries heard t counted = record {
    valid = record { routes = v.routes; discoveries = counted; pending = v.pending };
    routing = refl;
  }

  rreq_disc-Disc : (path_cost : ℕ) → Disc s (rreq_disc s mac_src hdr cmd path_cost)
  unfolding rreq_disc
  rreq_disc-Disc path_cost =
      let test : RouteDiscovery → Bool =
        λ e. (e.request_id == cmd.rreq_id) && (e.source_addr == hdr.src_addr) in
      let t = s.route_disc_table in
      elim (Option-cases (array_find_ent 5 test t)) [
        | inl new ↦ elim (array_get_ent-cases 5 (omega arith) t v.discoveries) [
          | inl full ↦ rw (rreq_disc, new, full) (record { valid = v; routing = refl })
          | inr (j, below, at, counted) ↦
              rw (rreq_disc, new, at)
                (with_discoveries passed_on _
                  (set_ent-IsCounted 5 (omega arith) (take_ent t j) counted j _ below))
        ]
        | inr (j, at) ↦ elim (Bool-cases (ltb path_cost ((t.array j).ent.forward_cost))) [
          | inl better ↦
              rw (rreq_disc, at, better)
                (with_discoveries passed_on _ (found_set t v.discoveries test j _ at))
          | inr worse ↦ rw (rreq_disc, at, worse) (record { valid = v; routing = refl })
        ]
      ]

rreq_failed-IsValid :
    (s : Mesh)
    → IsValid s
    → (buf i dest_addr : ℕ) → i < 5
    → (s.routing_table.array i).used ≡ true
    → IsValid ((rreq_failed s buf (some i) dest_addr).1)
unfolding rreq_failed array_put_ent
rreq_failed-IsValid s v buf i dest_addr below used = record {
  routes = free_ent-IsCounted 5 (omega arith) s.routing_table v.routes i below used;
  discoveries = v.discoveries;
  pending = v.pending;
}

-- `zb_nwk_mesh_rreq_handler`
module _ (nbt : ℕ → Option ℕ) (buf : ℕ) (mac_src : Option ℕ) (hdr : Header) (cmd : Rreq) where
  rreq_heard-IsValid :
      (path_cost i : ℕ) (s : Mesh)
      → i < 5
      → (s.routing_table.array i).used ≡ true
      → (o : Heard × Mesh) → Disc s o
      → IsValid ((rreq_heard nbt buf mac_src hdr cmd path_cost i o).1)
  unfolding rreq_heard
  rreq_heard-IsValid path_cost i s below used (passed_on, t) d = d.valid
  rreq_heard-IsValid path_cost i s below used (nothing_new, t) d = d.valid
  rreq_heard-IsValid path_cost i s below used (no_room, t) d =
      let same = d.routing in
      rreq_failed-IsValid t d.valid buf i cmd.dest_addr below
        (ap (λ r. (r.array i).used) same ∙ used)

  rreq_routed-IsValid :
      (path_cost : ℕ) (o : Option ℕ × Mesh)
      → Ready o
      → IsValid ((rreq_routed nbt buf mac_src hdr cmd path_cost o).1)
  unfolding rreq_routed rreq_failed array_put_ent
  rreq_routed-IsValid path_cost (none, s) r = record {
    routes = r.valid.routes;
    discoveries = r.valid.discoveries;
    pending = r.valid.pending;
  }
  rreq_routed-IsValid path_cost (some i, s) r =
      let (below, used) = r.entry i refl in
      rreq_heard-IsValid path_cost i s below used _
        (rreq_disc-Disc s r.valid mac_src hdr cmd path_cost)

  pub mesh_rreq_handler-IsValid :
      (s : Mesh) → IsValid s → IsValid ((mesh_rreq_handler nbt s buf mac_src hdr cmd).1)
  unfolding mesh_rreq_handler
  mesh_rreq_handler-IsValid s v = rreq_routed-IsValid _ _ (rreq_route-Ready s v cmd.dest_addr)
