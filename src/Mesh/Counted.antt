-- ===== src/Mesh/Counted.antt =====
-- The counters of mesh routing stay right in the operations on pending frames and expired entries.
use zboss.Base.{
  ℕ, zero, suc, ◌+◌, ◌<◌, ◌≤◌, ◌≡◌, arith, Bool, true, ◌&&◌, ◌==◌, not, Bool-cases, inl, inr,
  Option-cases,
}
use zboss.Slots.{Slots, take_ent, array_find_ent, free_ent}
use zboss.Slots.Count.{set_ent-IsCounted, free_ent-IsCounted, array_get_ent-cases}
use zboss.Mesh.Types.{state_active, Route, Pend, Mesh}
use zboss.Mesh.Reply.{pending_loop, rrep_arrived}
use zboss.Mesh.Expiry.{expire_disc, tick_disc, expiry_loop, mesh_expiry_pending}
use zboss.Mesh.Discover.{mesh_add_buf_to_pending}
use zboss.Mesh.Valid.{Counted, IsValid, found_freed}

in_range : (k i : ℕ) → suc k + i ≤ 5 → (i < 5) × (k + (i + 1) ≤ 5)
in_range k i h = (omega arith, omega arith)

pending_loop-Counted :
    (k dest_addr : ℕ) (t : Slots Pend) (i : ℕ)
    → Counted t
    → k + i ≤ 5
    → Counted ((pending_loop k dest_addr t i).1)
unfolding pending_loop
pending_loop-Counted zero dest_addr t i c h = c
pending_loop-Counted (suc k) dest_addr t i c h =
    let (below, rest) = in_range k i h in
    elim (Bool-cases ((t.array i).used && ((t.array i).ent.dest_addr == dest_addr))) [
      | inl wanted ↦ rw wanted (
          pending_loop-Counted k dest_addr (free_ent t i) (i + 1)
            (free_ent-IsCounted 5 (omega arith) t c i below (ground arith)) rest)
      | inr other ↦ rw other (pending_loop-Counted k dest_addr t (i + 1) c rest)
    ]

expiry_loop-Counted :
    (k : ℕ) (t : Slots Pend) (i : ℕ) → Counted t → k + i ≤ 5 → Counted ((expiry_loop k t i).1)
unfolding expiry_loop
expiry_loop-Counted zero t i c h = c
expiry_loop-Counted (suc k) t i c h =
    let (below, rest) = in_range k i h in
    elim (Bool-cases ((t.array i).used)) [
      | inl used ↦ elim (Bool-cases ((t.array i).ent.expiry == 0)) [
        | inl over ↦
            rw (used, over)
              (expiry_loop-Counted k (free_ent t i) (i + 1)
                (free_ent-IsCounted 5 (omega arith) t c i below used) rest)
        | inr later ↦
            rw (used, later)
              (expiry_loop-Counted k _ (i + 1) (set_ent-IsCounted 5 (omega arith) t c i _ below)
                rest)
      ]
      | inr unused ↦ rw unused (expiry_loop-Counted k t (i + 1) c rest)
    ]

module _ (s : Mesh) (v : IsValid s) where
  with_pending : (t : Slots Pend) → Counted t → IsValid (record s { pending_table = t })
  with_pending t c = record { routes = v.routes; discoveries = v.discoveries; pending = c }

  pub rrep_arrived-IsValid : (buf dest_addr : ℕ) → IsValid ((rrep_arrived s buf dest_addr).1)
  unfolding rrep_arrived
  rrep_arrived-IsValid buf dest_addr =
      let c = pending_loop-Counted 5 dest_addr s.pending_table 0 v.pending (omega arith) in
      elim (Bool-cases (s.aps_rreq_addr == dest_addr)) [
        | inl asked ↦
            rw asked (record { routes = v.routes; discoveries = v.discoveries; pending = c })
        | inr other ↦ rw other (with_pending _ c)
      ]

  pub mesh_expiry_pending-IsValid : IsValid ((mesh_expiry_pending s).1)
  unfolding mesh_expiry_pending
  mesh_expiry_pending-IsValid =
      let c = expiry_loop-Counted 5 s.pending_table 0 v.pending (omega arith) in
      elim (Bool-cases (s.pending_table.cnt == 0)) [
        | inl empty ↦ rw empty v
        | inr some_left ↦ rw some_left (with_pending _ c)
      ]

  pub mesh_add_buf_to_pending-IsValid :
      (buf dst_addr handle : ℕ) → IsValid ((mesh_add_buf_to_pending s buf dst_addr handle).1)
  unfolding mesh_add_buf_to_pending
  mesh_add_buf_to_pending-IsValid buf dst_addr handle =
      elim (array_get_ent-cases 5 (omega arith) s.pending_table v.pending) [
        | inl full ↦ rw (mesh_add_buf_to_pending, full) v
        | inr (i, below, at, counted) ↦
            rw (mesh_add_buf_to_pending, at)
              (with_pending _
                (set_ent-IsCounted 5 (omega arith) (take_ent s.pending_table i) counted i _ below))
      ]

  expire_disc-IsValid :
      (i : ℕ) → i < 5 → (s.route_disc_table.array i).used ≡ true → IsValid ((expire_disc s i).1)
  unfolding expire_disc
  expire_disc-IsValid i below used =
      let d = (s.route_disc_table.array i).ent in
      let test : Route → Bool =
        λ e. (e.dest_addr == d.dest_addr) && not (e.status == state_active) in
      let c = free_ent-IsCounted 5 (omega arith) s.route_disc_table v.discoveries i below used in
      elim (Option-cases (array_find_ent 5 test s.routing_table)) [
        | inl no_route ↦
            rw (expire_disc, no_route)
              (record { routes = v.routes; discoveries = c; pending = v.pending })
        | inr (r, at) ↦
            rw (expire_disc, at)
              (record {
                routes = found_freed s.routing_table v.routes test r at;
                discoveries = c;
                pending = v.pending;
              })
      ]

  pub tick_disc-IsValid : (i : ℕ) → i < 5 → IsValid ((tick_disc s i).1)
  unfolding tick_disc
  tick_disc-IsValid i below = elim (Bool-cases ((s.route_disc_table.array i).used)) [
    | inl used ↦ elim (Bool-cases ((s.route_disc_table.array i).ent.expiration_time == 0)) [
      | inl over ↦ rw (used, over) (expire_disc-IsValid i below used)
      | inr later ↦
          rw (used, later)
            (record {
              routes = v.routes;
              discoveries =
                  set_ent-IsCounted 5 (omega arith) s.route_disc_table v.discoveries i _ below;
              pending = v.pending;
            })
    ]
    | inr unused ↦ rw unused v
  ]
