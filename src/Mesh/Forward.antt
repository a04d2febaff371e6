-- ===== src/Mesh/Forward.antt =====
-- A route reply that ends the discovery: `zb_nwk_mesh_rrep_handler` forwards the frames that wait.
use zboss.Base.{
  ℕ, zero, suc, ◌+◌, ◌%◌, ◌<◌, ◌≤◌, ◌≡◌, refl, ap, subst, ◌≢◌, ◌∙◌, arith, Bool, true, false, ◌&&◌,
  ◌==◌, ltb, if◌then◌else◌, Bool-cases, inl, inr, Option, some, List, [], ◌∷◌, ◌++◌, map, filter,
  slice, slice_ext, update_self, update_ne,
}
use native.Mathlib.Decide.{dec_lt}
use zboss.Slots.{Slot, Slots, array_find_ent, free_ent, set_ent}
use zboss.Slots.Count.{array_find_ent-some}
use zboss.Mesh.Types.{Pend, Rrep, Header, Mesh, Event, forward, free_buf, route_discovery_confirm}
use zboss.Mesh.{calc_path_cost, get_mac_source_addr}
use zboss.Mesh.Reply.{pending_loop, rrep_arrived, rrep_update, mesh_rrep_handler}

-- The entry holds a frame to the address.
unfoldable pub is_waiting : ℕ → Slot Pend → Bool
is_waiting dest_addr slot = slot.used && (slot.ent.dest_addr == dest_addr)

-- `zb_nwk_forward` of the frame of an entry.
unfoldable pub forwarded : Slot Pend → Event
forwarded slot = forward slot.ent.buf slot.ent.handle

-- The frames to the address, in the order of the table.
unfoldable pub waiting_frames : ℕ → Slots Pend → List Event
waiting_frames dest_addr t = map forwarded (filter (is_waiting dest_addr) (slice t.array 0 5))

-- The entry, freed when it holds a frame to the address.
unfoldable pub released : ℕ → Slot Pend → Slot Pend
released dest_addr slot = if is_waiting dest_addr slot then record slot { used = false } else slot

module _ (dest_addr : ℕ) where
  events_of : (t : Slots Pend) (i k : ℕ) → List Event
  events_of t i k = map forwarded (filter (is_waiting dest_addr) (slice t.array i k))

  -- Freeing an entry leaves those behind it.
  events_behind :
      (t : Slots Pend) (i k : ℕ) → events_of (free_ent t i) (i + 1) k ≡ events_of t (i + 1) k
  unfolding events_of free_ent
  events_behind t i k =
      ap (λ l. map forwarded (filter (is_waiting dest_addr) l))
        (slice_ext _ t.array (i + 1) (i + 1) k
          (λ n h. update_ne t.array i (i + 1 + n) _ (λ same. omega arith)))

  pending_loop-forward :
      (k : ℕ) (t : Slots Pend) (i : ℕ) → (pending_loop k dest_addr t i).0 ≡ events_of t i k
  unfolding pending_loop events_of slice is_waiting forwarded
  pending_loop-forward zero t i = refl
  pending_loop-forward (suc k) t i =
      elim (Bool-cases ((t.array i).used && ((t.array i).ent.dest_addr == dest_addr))) [
        | inl wanted ↦ rw wanted (
            ap (λ l. forward ((t.array i).ent.buf) ((t.array i).ent.handle) ∷ l)
              (pending_loop-forward k (free_ent t i) (i + 1) ∙ events_behind t i k))
        | inr other ↦ rw other (pending_loop-forward k t (i + 1))
      ]

  -- The table that the rest of the loop starts with.
  seen : (t : Slots Pend) (i : ℕ) → Slots Pend
  seen t i = if is_waiting dest_addr (t.array i) then free_ent t i else t

  seen_ne : (t : Slots Pend) (i j : ℕ) → j ≢ i → (seen t i).array j ≡ t.array j
  unfolding seen free_ent
  seen_ne t i j other = elim (Bool-cases (is_waiting dest_addr (t.array i))) [
    | inl wanted ↦ rw wanted (update_ne t.array i j _ other)
    | inr unwanted ↦ rw unwanted refl
  ]

  seen_self : (t : Slots Pend) (i : ℕ) → (seen t i).array i ≡ released dest_addr (t.array i)
  unfolding seen free_ent released
  seen_self t i = elim (Bool-cases (is_waiting dest_addr (t.array i))) [
    | inl wanted ↦ rw wanted (update_self t.array i _)
    | inr unwanted ↦ rw unwanted refl
  ]

  pending_loop_before :
      (k : ℕ) (t : Slots Pend) (i j : ℕ)
      → j < i
      → ((pending_loop k dest_addr t i).1).array j ≡ t.array j
  unfolding pending_loop seen is_waiting
  pending_loop_before zero t i j h = refl
  pending_loop_before (suc k) t i j h =
      pending_loop_before k (seen t i) (i + 1) j (omega arith) ∙ seen_ne t i j (λ same. omega arith)

  -- What the loop leaves of the entries that it comes to.
  pending_loop-released :
      (k : ℕ) (t : Slots Pend) (i j : ℕ)
      → i ≤ j
      → j < i + k
      → ((pending_loop k dest_addr t i).1).array j ≡ released dest_addr (t.array j)
  unfolding pending_loop seen is_waiting
  pending_loop-released zero t i j low high = absurd (omega arith)
  pending_loop-released (suc k) t i j low high = elim (dec_lt i j) [
    | yes later ↦
        pending_loop-released k (seen t i) (i + 1) j (omega arith) (omega arith)
        ∙ ap (released dest_addr) (seen_ne t i j (λ same. omega arith))
    | no now ↦
        let here : i ≡ j = omega arith in
        pending_loop_before k (seen t i) (i + 1) j (omega arith)
        ∙ subst (λ n. (seen t i).array n ≡ released dest_addr (t.array n)) here (seen_self t i)
  ]

-- What the arrival of a reply for this device leaves and calls, with the entries `i` of the route to
-- the address and `j` of the route discovery.
pub record Arrived (s : Mesh) (buf i j cost hop dest_addr : ℕ) (o : List Event × Mesh)
    : Type 0 where
  pub sent :
      o.0
      ≡ waiting_frames dest_addr s.pending_table
        ++ (if s.aps_rreq_addr == dest_addr
            then route_discovery_confirm buf 0 0xff ∷ free_buf buf ∷ []
            else free_buf buf ∷ [])
  pub kept :
      (k : ℕ) → k < 5 → (o.1).pending_table.array k ≡ released dest_addr (s.pending_table.array k)
  pub next_hop : ((o.1).routing_table.array i).ent.next_hop_addr ≡ hop
  pub destination : ((o.1).routing_table.array i).ent.dest_addr ≡ dest_addr
  pub residual : ((o.1).route_disc_table.array j).ent.residual_cost ≡ cost
  pub confirmed : (s.aps_rreq_addr == dest_addr) ≡ true → (o.1).aps_rreq_addr ≡ 0xffff

module _ (s : Mesh) (buf i j cost hop : ℕ) where
  abbrev updated : Mesh
  updated = rrep_update s i j hop cost

  set_here {ℓ} :
      {A : Type 0} {B : Type ℓ} (t : Slots A) (n : ℕ) (v : A) (f : A → B)
      → f (((set_ent t n v).array n).ent) ≡ f v
  unfolding set_ent
  set_here t n v f =
      ap (λ slot. f slot.ent) (update_self t.array n (record (t.array n) { ent = v }))

  arrived :
      let dest_addr = (s.routing_table.array i).ent.dest_addr in
      Arrived s buf i j cost hop dest_addr (rrep_arrived updated buf dest_addr)
  unfolding rrep_arrived rrep_update waiting_frames events_of
  arrived =
      let dest_addr = (s.routing_table.array i).ent.dest_addr in
      let loop_sent = pending_loop-forward dest_addr 5 s.pending_table 0 in
      let left = λ (k : ℕ). λ (h : k < 5).
        pending_loop-released dest_addr 5 s.pending_table 0 k (omega arith) (omega arith) in
      elim (Bool-cases (s.aps_rreq_addr == dest_addr)) [
        | inl asked ↦ rw asked (record {
          sent =
              rw asked
                (ap (λ l. l ++ (route_discovery_confirm buf 0 0xff ∷ free_buf buf ∷ [])) loop_sent);
          kept = left;
          next_hop = set_here s.routing_table i _ (λ e. e.next_hop_addr);
          destination = set_here s.routing_table i _ (λ e. e.dest_addr);
          residual = set_here s.route_disc_table j _ (λ e. e.residual_cost);
          confirmed = λ _. refl;
        })
        | inr other ↦ rw other (record {
          sent = rw other (ap (λ l. l ++ (free_buf buf ∷ [])) loop_sent);
          kept = left;
          next_hop = set_here s.routing_table i _ (λ e. e.next_hop_addr);
          destination = set_here s.routing_table i _ (λ e. e.dest_addr);
          residual = set_here s.route_disc_table j _ (λ e. e.residual_cost);
          confirmed = λ yes_asked. absurd (ground arith);
        })
      ]

-- When the tables have a used entry `j` for the request that a route reply answers and a used entry
-- `i` for a route to its responder, the path is no dearer than the one known and this device sent the
-- request, `zb_nwk_mesh_rrep_handler` forwards exactly the pending frames to the responder, in the
-- order of the table, and frees their entries and no other; the route leads to the responder over the
-- device that sent the reply; the cost of the path is stored; and the upper layer is told when it asked
-- for this route, and is no longer waiting. Last of all the reply's buffer is freed, also when it has
-- just gone to the upper layer with the confirm.
pub mesh_rrep_handler-Arrived :
    (nbt : ℕ → Option ℕ) (s : Mesh) (buf : ℕ) (mac_src : Option ℕ) (hdr : Header) (cmd : Rrep)
    (i j : ℕ)
    → array_find_ent 5
        (λ e. (e.request_id == cmd.rreq_id) && (e.source_addr == cmd.originator))
        s.route_disc_table
      ≡ some j
    → array_find_ent 5 (λ e. e.dest_addr == cmd.responder) s.routing_table ≡ some i
    → let cost = (calc_path_cost nbt s hdr.src_addr + cmd.path_cost) % 256 in
      cost ≤ (s.route_disc_table.array j).ent.residual_cost
      → cmd.originator ≡ s.network_address
      → Arrived s buf i j cost
          (get_mac_source_addr mac_src s)
          cmd.responder
          (mesh_rrep_handler nbt s buf mac_src hdr cmd)
unfolding mesh_rrep_handler
mesh_rrep_handler-Arrived nbt s buf mac_src hdr cmd i j known at fair mine =
    let cost = (calc_path_cost nbt s hdr.src_addr + cmd.path_cost) % 256 in
    let hop = get_mac_source_addr mac_src s in
    let (below, used, to_responder) = array_find_ent-some 5 _ s.routing_table i at in
    let same : (s.routing_table.array i).ent.dest_addr ≡ cmd.responder = ground arith in
    let cheap : ltb ((s.route_disc_table.array j).ent.residual_cost) cost ≡ false = ground arith in
    let own : (cmd.originator == s.network_address) ≡ true = ground arith in
    rw (mesh_rrep_handler, known, at, cheap, own)
      (subst
        (λ d.
          Arrived s buf i j cost hop d (
            rrep_arrived (rrep_update s i j hop cost) buf
              ((s.routing_table.array i).ent.dest_addr)))
        same (arrived s buf i j cost hop))
