-- ===== src/Mesh/Noted.antt =====
-- What `zb_nwk_mesh_rreq_handler` does at the routing table and at the route discovery table, and what
-- it finds there for the same request again.
use zboss.Base.{
  ℕ, ◌≡◌, refl, ap, ◌≢◌, arith, Bool, false, not, ◌&&◌, ◌==◌, ltb, Bool-cases, Option-cases, inl,
  inr, update_self, Option, some,
}
use zboss.Slots.{Slots, array_find_ent, take_ent, set_ent}
use zboss.Slots.Count.{array_find_ent-some, array_get_ent-cases}
use zboss.Slots.Find.{found_again, new_found}
use zboss.Mesh.Types.{
  state_active, state_validation_underway, Route, RouteDiscovery, Rreq, Header, Mesh,
}
use zboss.Mesh.{
  new_route, new_discovery, rreq_route, Heard, passed_on, nothing_new, no_room, rreq_disc,
}
use zboss.Mesh.Valid.{IsValid}

abbrev pub to_dest : ℕ → Route → Bool
to_dest dest_addr e = e.dest_addr == dest_addr

abbrev pub of_request : Header → Rreq → RouteDiscovery → Bool
of_request hdr cmd e = (e.request_id == cmd.rreq_id) && (e.source_addr == hdr.src_addr)

-- What the handler does at the routing table.
pub record Led (s : Mesh) (dest_addr : ℕ) (o : Option ℕ × Mesh) : Type 0 where
  pub found :
      (i : ℕ)
      → o.0 ≡ some i
      → (r : ℕ) × (array_find_ent 5 (to_dest dest_addr) ((o.1).routing_table) ≡ some r)
  pub discoveries : (o.1).route_disc_table ≡ s.route_disc_table
  pub address : (o.1).network_address ≡ s.network_address
  pub constant : (o.1).nwk_report_constant_cost ≡ s.nwk_report_constant_cost

module _ (s : Mesh) (v : IsValid s) (dest_addr : ℕ) where
  led :
      (i : ℕ) (t : Slots Route)
      → array_find_ent 5 (to_dest dest_addr) t ≡ some i
      → Led s dest_addr (some i, record s { routing_table = t })
  led i t at = record {
    found = λ _ _. (i, at);
    discoveries = refl;
    address = refl;
    constant = refl;
  }

  pub rreq_route-Led : Led s dest_addr (rreq_route s dest_addr)
  unfolding rreq_route new_route
  rreq_route-Led = elim (Option-cases (array_find_ent 5 (to_dest dest_addr) s.routing_table)) [
    | inl new ↦ elim (array_get_ent-cases 5 (omega arith) s.routing_table v.routes) [
      | inl full ↦
          rw (rreq_route, new, full)
            (record {
              found = λ i e. absurd (ground arith);
              discoveries = refl;
              address = refl;
              constant = refl;
            })
      | inr (i, below, at, counted) ↦
          rw (rreq_route, new, at)
            (led i _ (new_found 5 (to_dest dest_addr) s.routing_table i _ below (ground arith) new))
    ]
    | inr (i, at) ↦
        let (below, used, same) = array_find_ent-some 5 _ s.routing_table i at in
        let status = (s.routing_table.array i).ent.status in
        elim (Bool-cases
          (not (status == state_active) && not (status == state_validation_underway))) [
            | inl reset ↦
                rw (rreq_route, at, reset)
                  (led i _
                    (found_again 5 (to_dest dest_addr) s.routing_table i _ below same at used))
            | inr kept ↦ rw (rreq_route, at, kept) (led i s.routing_table at)
          ]
  ]

-- What it does at the route discovery table, for a path of this cost.
pub record Noted (s : Mesh) (hdr : Header) (cmd : Rreq) (cost : ℕ) (o : Heard × Mesh) : Type 0 where
  pub known :
      o.0 ≡ passed_on
      → (j : ℕ) × (array_find_ent 5 (of_request hdr cmd) ((o.1).route_disc_table) ≡ some j)
        × (((o.1).route_disc_table.array j).ent.forward_cost ≡ cost)
  pub routing : (o.1).routing_table ≡ s.routing_table
  pub address : (o.1).network_address ≡ s.network_address
  pub constant : (o.1).nwk_report_constant_cost ≡ s.nwk_report_constant_cost

forward_cost_set :
    (t : Slots RouteDiscovery) (j : ℕ) (e : RouteDiscovery)
    → ((set_ent t j e).array j).ent.forward_cost ≡ e.forward_cost
unfolding set_ent
forward_cost_set t j e =
    ap (λ slot. slot.ent.forward_cost) (update_self t.array j (record (t.array j) { ent = e }))

module _ (s : Mesh) (v : IsValid s) (mac_src : Option ℕ) (hdr : Header) (cmd : Rreq) where
  module _ (cost : ℕ) where
    noted :
        (j : ℕ) (t : Slots RouteDiscovery)
        → array_find_ent 5 (of_request hdr cmd) t ≡ some j
        → (t.array j).ent.forward_cost ≡ cost
        → Noted s hdr cmd cost (passed_on, record s { route_disc_table = t })
    noted j t at same = record {
      known = λ _. (j, at, same);
      routing = refl;
      address = refl;
      constant = refl;
    }

    unnoted : (heard : Heard) → heard ≢ passed_on → Noted s hdr cmd cost (heard, s)
    unnoted heard other = record {
      known = λ e. absurd (other e);
      routing = refl;
      address = refl;
      constant = refl;
    }

    pub rreq_disc-Noted : Noted s hdr cmd cost (rreq_disc s mac_src hdr cmd cost)
    unfolding rreq_disc new_discovery
    rreq_disc-Noted =
        let t = s.route_disc_table in
        let test = of_request hdr cmd in
        elim (Option-cases (array_find_ent 5 test t)) [
          | inl new ↦ elim (array_get_ent-cases 5 (omega arith) t v.discoveries) [
            | inl full ↦ rw (rreq_disc, new, full) (unnoted no_room (λ e. ground arith))
            | inr (j, below, at, counted) ↦
                rw (rreq_disc, new, at)
                  (noted j _ (new_found 5 test t j _ below (ground arith) new)
                    (forward_cost_set (take_ent t j) j _))
          ]
          | inr (j, at) ↦
              let (below, used, same) = array_find_ent-some 5 test t j at in
              elim (Bool-cases (ltb cost ((t.array j).ent.forward_cost))) [
                | inl better ↦
                    rw (rreq_disc, at, better)
                      (noted j _ (found_again 5 test t j _ below same at used)
                        (forward_cost_set t j _))
                | inr worse ↦ rw (rreq_disc, at, worse) (unnoted nothing_new (λ e. ground arith))
              ]
        ]

  -- A request that is known at this cost brings nothing new.
  pub rreq_disc_again :
      (cost j : ℕ)
      → array_find_ent 5 (of_request hdr cmd) s.route_disc_table ≡ some j
      → (s.route_disc_table.array j).ent.forward_cost ≡ cost
      → rreq_disc s mac_src hdr cmd cost ≡ (nothing_new, s)
  unfolding rreq_disc
  rreq_disc_again cost j at same =
      let no_better : ltb cost ((s.route_disc_table.array j).ent.forward_cost) ≡ false =
        ground arith in
      rw (rreq_disc, at, no_better) refl

-- The entry for the destination is there.
pub rreq_route-some :
    (s : Mesh) (dest_addr r : ℕ)
    → array_find_ent 5 (to_dest dest_addr) s.routing_table ≡ some r
    → (rreq_route s dest_addr).0 ≡ some r
unfolding rreq_route
rreq_route-some s dest_addr r at =
    let status = (s.routing_table.array r).ent.status in
    elim (Bool-cases (not (status == state_active) && not (status == state_validation_underway))) [
      | inl reset ↦ rw (rreq_route, at, reset) refl
      | inr kept ↦ rw (rreq_route, at, kept) refl
    ]
