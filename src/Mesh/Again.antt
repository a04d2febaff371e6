-- ===== src/Mesh/Again.antt =====
-- A route request that `zb_nwk_mesh_rreq_handler` has passed on is not passed on a second time.
use zboss.Base.{
  ℕ, ◌+◌, ◌%◌, ◌≡◌, refl, sym, ap, ap₂, ◌-◌, ◌∙◌, arith, Bool, true, false, not, ◌&&◌, ◌==◌,
  if◌then◌else◌, Bool-cases, not_both, inl, inr, Option, none, some, List, [], ◌∷◌,
}
use zboss.Slots.{array_find_ent}
use zboss.Mesh.Types.{Rreq, Header, Mesh, Event, send_rreq, send_rrep, free_buf}
use zboss.Mesh.{
  lqi_loop, calc_path_cost, Heard, passed_on, nothing_new, no_room, rreq_failed, rreq_path_cost,
  rreq_heard, rreq_routed, mesh_rreq_handler,
}
use zboss.Mesh.Valid.{IsValid, Ready, rreq_route-Ready, mesh_rreq_handler-IsValid}
use zboss.Mesh.Noted.{
  to_dest, of_request, Led, rreq_route-Led, rreq_route-some, Noted, rreq_disc-Noted,
  rreq_disc_again,
}

-- The handler has sent a request or a reply on.
unfoldable pub is_sent : List Event → Bool
is_sent (send_rreq buf secure cmd src_addr seq_num radius ∷ events) = true
is_sent (send_rrep buf dst_addr secure cmd radius ∷ events) = true
is_sent events = false

module _ (nbt : ℕ → Option ℕ) (hdr : Header) (cmd : Rreq) where
  -- The tables after a request was sent on.
  record Recorded (cost : ℕ) (s : Mesh) : Type 0 where
    route : (r : ℕ) × (array_find_ent 5 (to_dest cmd.dest_addr) s.routing_table ≡ some r)
    request :
        (j : ℕ) × (array_find_ent 5 (of_request hdr cmd) s.route_disc_table ≡ some j)
        × ((s.route_disc_table.array j).ent.forward_cost ≡ cost)

  module _ (buf : ℕ) (mac_src : Option ℕ) (cost : ℕ) where
    failed_unsent :
        (s : Mesh) (routing_ent : Option ℕ)
        → is_sent ((rreq_failed s buf routing_ent cmd.dest_addr).0) ≡ false
    unfolding rreq_failed is_sent
    failed_unsent s routing_ent =
        elim (Bool-cases (not (s.aps_rreq_addr == 0) && (s.aps_rreq_addr == cmd.dest_addr))) [
          | inl asked ↦ rw asked refl
          | inr other ↦ rw other refl
        ]

    rreq_heard-Recorded :
        (i r : ℕ) (s : Mesh)
        → array_find_ent 5 (to_dest cmd.dest_addr) s.routing_table ≡ some r
        → (o : Heard × Mesh) → Noted s hdr cmd cost o
        → is_sent ((rreq_heard nbt buf mac_src hdr cmd cost i o).0) ≡ true
        → Recorded cost ((rreq_heard nbt buf mac_src hdr cmd cost i o).1)
          × (((rreq_heard nbt buf mac_src hdr cmd cost i o).1).network_address ≡ s.network_address)
          × (((rreq_heard nbt buf mac_src hdr cmd cost i o).1).nwk_report_constant_cost
              ≡ s.nwk_report_constant_cost)
    unfolding rreq_heard is_sent
    rreq_heard-Recorded i r s at (passed_on, t) n sent =
        let same = n.routing in
        (
          record {
            route = (r, ap (array_find_ent 5 (to_dest cmd.dest_addr)) same ∙ at);
            request = n.known refl;
          },
          n.address,
          n.constant,
        )
    rreq_heard-Recorded i r s at (nothing_new, t) n sent = absurd (not_both (sym sent))
    rreq_heard-Recorded i r s at (no_room, t) n sent =
        absurd (not_both (sym sent ∙ failed_unsent t (some i)))

    -- After the first call.
    rreq_routed-Recorded :
        (s : Mesh) (o : Option ℕ × Mesh)
        → Led s cmd.dest_addr o
        → Ready o
        → is_sent ((rreq_routed nbt buf mac_src hdr cmd cost o).0) ≡ true
        → Recorded cost ((rreq_routed nbt buf mac_src hdr cmd cost o).1)
          × (((rreq_routed nbt buf mac_src hdr cmd cost o).1).network_address ≡ s.network_address)
          × (((rreq_routed nbt buf mac_src hdr cmd cost o).1).nwk_report_constant_cost
              ≡ s.nwk_report_constant_cost)
    unfolding rreq_routed
    rreq_routed-Recorded s (none, t) l r sent = absurd (not_both (sym sent ∙ failed_unsent t none))
    rreq_routed-Recorded s (some i, t) l r sent =
        let (place, at) = l.found i refl in
        let n = rreq_disc-Noted t r.valid mac_src hdr cmd cost in
        let (recorded, address, constant) = rreq_heard-Recorded i place t at _ n sent in
        (recorded, address ∙ l.address, constant ∙ l.constant)

    -- At the second call.
    rreq_routed_again :
        (s : Mesh) (o : Option ℕ × Mesh) (r : ℕ)
        → o.0 ≡ some r
        → Led s cmd.dest_addr o
        → Ready o
        → Recorded cost s
        → ((rreq_routed nbt buf mac_src hdr cmd cost o).0 ≡ free_buf buf ∷ [])
          × (((rreq_routed nbt buf mac_src hdr cmd cost o).1).route_disc_table ≡ s.route_disc_table)
    unfolding rreq_routed rreq_heard
    rreq_routed_again s (none, t) r there l ready rec = absurd (ground arith)
    rreq_routed_again s (some i, t) r there l ready rec =
        let (j, at, same) = rec.request in
        let kept = l.discoveries in
        let again =
          rreq_disc_again t ready.valid mac_src hdr cmd cost j
            (ap (array_find_ent 5 (of_request hdr cmd)) kept ∙ at)
            (ap (λ d. (d.array j).ent.forward_cost) kept ∙ same) in
        rw again (refl, kept)

  path_cost_kept :
      (s t : Mesh)
      → t.network_address ≡ s.network_address
      → t.nwk_report_constant_cost ≡ s.nwk_report_constant_cost
      → rreq_path_cost nbt t hdr cmd ≡ rreq_path_cost nbt s hdr cmd
  unfolding rreq_path_cost calc_path_cost
  path_cost_kept s t address constant =
      let cost : Bool → ℕ → ℕ = λ c a. if c then 7 else elim (nbt hdr.src_addr) [
        | some lqi ↦ let i = lqi_loop 8 lqi 0 in if 7 - i == 0 then 1 else 7 - i
        | none ↦ if hdr.src_addr == a then 0 else 7
      ] in
      ap₂ (λ c a. (cost c a + cmd.path_cost) % 256) constant address

-- On tables whose counters are right, when `zb_nwk_mesh_rreq_handler` has passed a route request on, as
-- a request to the routers or as a reply to its sender, the same request once more, in whatever buffer
-- and from whatever device it comes, only has its buffer freed, and the route discovery table stays as
-- it is: a request goes through a device once for each better path.
pub mesh_rreq_handler-once :
    (nbt : ℕ → Option ℕ) (s : Mesh) (buf : ℕ) (mac_src : Option ℕ) (hdr : Header) (cmd : Rreq)
    → IsValid s
    → is_sent ((mesh_rreq_handler nbt s buf mac_src hdr cmd).0) ≡ true
    → (buf' : ℕ) (mac_src' : Option ℕ)
    → let t = (mesh_rreq_handler nbt s buf mac_src hdr cmd).1 in
      let o = mesh_rreq_handler nbt t buf' mac_src' hdr cmd in
      (o.0 ≡ free_buf buf' ∷ []) × ((o.1).route_disc_table ≡ t.route_disc_table)
unfolding mesh_rreq_handler
mesh_rreq_handler-once nbt s buf mac_src hdr cmd v sent buf' mac_src' =
    let cost = rreq_path_cost nbt s hdr cmd in
    let dest_addr = cmd.dest_addr in
    let t = (mesh_rreq_handler nbt s buf mac_src hdr cmd).1 in
    let w = mesh_rreq_handler-IsValid nbt buf mac_src hdr cmd s v in
    let (rec, address, constant) =
      rreq_routed-Recorded nbt hdr cmd buf mac_src cost s _ (rreq_route-Led s v dest_addr)
        (rreq_route-Ready s v dest_addr) sent in
    let (r, at) = rec.route in
    rw (path_cost_kept nbt hdr cmd s t address constant) (
      rreq_routed_again nbt hdr cmd buf' mac_src' cost t _ r (rreq_route-some t dest_addr r at)
        (rreq_route-Led t w dest_addr) (rreq_route-Ready t w dest_addr) rec)
