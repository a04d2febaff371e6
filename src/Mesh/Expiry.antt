-- ===== src/Mesh/Expiry.antt =====
-- The periodical functions of nwk/nwk_cr_mesh_routing.c that count down the route discoveries and the
-- pending frames, and the start and end of their alarms.
use zboss.Base.{
  ℕ, zero, suc, ◌+◌, ◌-◌, Bool, true, false, not, ◌&&◌, ◌==◌, if◌then◌else◌, none, some, List, [],
  ◌∷◌, ◌++◌,
}
use zboss.Slots.{Slots, array_find_ent, free_ent, set_ent}
use zboss.Mesh.Types.{
  state_active, Pend, Mesh, Event, free_buf, status_indication, disc_failed_delayed,
  alarm_route_disc, alarm_pending, cancel_route_disc, cancel_pending,
}

-- `zb_nwk_mesh_routing_init`
unfoldable pub mesh_routing_init : List Event
mesh_routing_init = alarm_route_disc ∷ alarm_pending ∷ []

-- `zb_nwk_mesh_routing_deinit`
unfoldable pub mesh_routing_deinit : List Event
mesh_routing_deinit = cancel_pending ∷ cancel_route_disc ∷ []

-- `nwk_route_disc_failed`
unfoldable pub route_disc_failed : Mesh → ℕ → List Event
route_disc_failed s buf =
    status_indication buf 0 s.status_ind_addr ∷ cancel_route_disc ∷ alarm_route_disc ∷ []

-- An expired route discovery: whether its route, if that is not active, is given up too, with the
-- report to the upper layer.
unfoldable pub expire_disc : Mesh → ℕ → Bool × Mesh
expire_disc s i =
    let d = (s.route_disc_table.array i).ent in
    let freed = free_ent s.route_disc_table i in
    elim (array_find_ent 5 (λ e. (e.dest_addr == d.dest_addr) && not (e.status == state_active))
      s.routing_table) [
        | some r ↦ (
          true,
          record s {
            route_disc_table = freed;
            status_ind_addr = (s.routing_table.array r).ent.dest_addr;
            routing_table = free_ent s.routing_table r;
          },
        )
        | none ↦ (false, record s { route_disc_table = freed })
      ]

-- One entry of the route discovery table: whether the function ends with it, and the tables.
unfoldable pub tick_disc : Mesh → ℕ → Bool × Mesh
unfolding expire_disc
tick_disc s i =
    let d = (s.route_disc_table.array i).ent in
    if (s.route_disc_table.array i).used
    then (if d.expiration_time == 0 then expire_disc s i else (
      false,
      record s {
        route_disc_table =
            set_ent s.route_disc_table i (record d { expiration_time = d.expiration_time - 1 });
      },
    ))
    else (false, s)

-- The loop, for `k` entries from the `i`-th on.
unfoldable pub disc_loop : ℕ → Mesh → ℕ → Bool × Mesh
disc_loop zero s i = (false, s)
disc_loop (suc k) s i =
    let ticked = tick_disc s i in
    let rest = disc_loop k (ticked.1) (i + 1) in if ticked.0 then ticked else rest

-- `zb_nwk_mesh_expiry_route_disc`: its alarm is scheduled again, or a buffer is asked for.
unfoldable pub mesh_expiry_route_disc : Mesh → List Event × Mesh
unfolding disc_loop
mesh_expiry_route_disc s =
    let looped = disc_loop 5 s 0 in
    if s.route_disc_table.cnt == 0
    then (alarm_route_disc ∷ [], s)
    else if looped.0
    then (disc_failed_delayed ∷ [], looped.1)
    else (alarm_route_disc ∷ [], looped.1)

-- The loop over the pending table, for `k` entries from the `i`-th on.
unfoldable pub expiry_loop : ℕ → Slots Pend → ℕ → List Event × Slots Pend
expiry_loop zero t i = ([], t)
expiry_loop (suc k) t i =
    let e = (t.array i).ent in
    let used = (t.array i).used in
    let over = used && (e.expiry == 0) in
    let rest =
      expiry_loop k
        (if over
          then free_ent t i
          else if used
          then set_ent t i (record e { expiry = e.expiry - 1 })
          else t)
        (i + 1) in
    (if over then free_buf e.buf ∷ rest.0 else rest.0, rest.1)

-- `zb_nwk_mesh_expiry_pending`
unfoldable pub mesh_expiry_pending : Mesh → List Event × Mesh
unfolding expiry_loop
mesh_expiry_pending s =
    let looped = expiry_loop 5 s.pending_table 0 in
    if s.pending_table.cnt == 0
    then (alarm_pending ∷ [], s)
    else (looped.0 ++ (alarm_pending ∷ []), record s { pending_table = looped.1 })
