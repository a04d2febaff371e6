-- ===== src/Neighbors/Next.antt =====
-- The functions of nwk/nwk_neighbor.c that step through the base table: to the next entry of a kind,
-- and to the next entry whose frame counter may have expired.
use zboss.Base.{
  ℕ, zero, suc, ◌+◌, ◌-◌, ◌%◌, ◌<◌, ◌≤◌, ◌≡◌, refl, arith, Bool, true, false, not, ◌&&◌, ◌||◌, ◌==◌,
  leb, ltb, if◌then◌else◌, Bool-cases, inl, inr, ◌⊎◌, update, First, First-end, First-here,
  First-later,
}
use zboss.Neighbors.{Neighbor, Neighbors, device_type_ed}

-- `(zb_ushort_t)~0`
abbrev pub no_next : ℕ
no_next = 4294967295

-- The while loop of the three functions below, with the rounds left.
unfoldable pub next_loop : (ℕ → Bool) → ℕ → ℕ → ℕ
next_loop test zero i = i
next_loop test (suc k) i = let rest = next_loop test k (i + 1) in if test i then i else rest

-- The next entry that passes.
unfoldable pub next_i : (ℕ → Bool) → Neighbors → ℕ → ℕ
next_i test s i =
    let r = next_loop test (s.base_neighbor_used - i) i in
    if leb s.base_neighbor_used r then no_next else r

unfoldable pub is_rx_on : Neighbors → ℕ → Bool
is_rx_on s i = (s.base_neighbor i).used && (s.base_neighbor i).rx_on_when_idle

-- ZB_NWK_RELATIONSHIP_CHILD and ZB_NWK_RELATIONSHIP_UNAUTHENTICATED_CHILD
unfoldable pub is_child : Neighbor → Bool
is_child ent = (ent.relationship == 1) || (ent.relationship == 5)

-- ZB_NWK_BROADCAST_ALL_DEVICES and ZB_NWK_BROADCAST_RX_ON_WHEN_IDLE
unfoldable pub is_ze_child : Neighbors → ℕ → ℕ → Bool
is_ze_child s addr i =
    let ent = s.base_neighbor i in
    ent.used
    && is_child ent
    && (ent.device_type == device_type_ed)
    && ((addr == 0xffff) || ((addr == 0xfffd) && ent.rx_on_when_idle))

unfoldable pub is_rx_off_child : Neighbors → ℕ → Bool
is_rx_off_child s i =
    let ent = s.base_neighbor i in ent.used && is_child ent && not ent.rx_on_when_idle

-- `zb_nwk_neighbor_next_rx_on_i`
unfoldable pub neighbor_next_rx_on_i : Neighbors → ℕ → ℕ
neighbor_next_rx_on_i s i = next_i (is_rx_on s) s i

-- `zb_nwk_neighbor_next_ze_children_i`
unfoldable pub neighbor_next_ze_children_i : Neighbors → ℕ → ℕ → ℕ
neighbor_next_ze_children_i s addr i = next_i (is_ze_child s addr) s i

-- `zb_nwk_neighbor_next_ze_children_rx_off_i`
unfoldable pub neighbor_next_ze_children_rx_off_i : Neighbors → ℕ → ℕ
neighbor_next_ze_children_rx_off_i s i = next_i (is_rx_off_child s) s i

-- How far the entry's key is behind, of the 8-bit sequence numbers.
unfoldable pub key_lag : ℕ → Neighbor → ℕ
key_lag key_seq_number ent = (key_seq_number + 256 - ent.key_seq_number) % 256

unfoldable pub expire : ℕ → Neighbor → Neighbor
expire key_seq_number ent =
    if ltb 3 (key_lag key_seq_number ent)
    then record ent { incoming_frame_counter = 0; key_seq_number = key_seq_number }
    else ent

-- `zb_nwk_neighbor_incoming_frame_counter_clock`
unfoldable pub neighbor_incoming_frame_counter_clock : Neighbors → ℕ → Neighbors
neighbor_incoming_frame_counter_clock s key_seq_number =
    let i = (s.incoming_frame_counter_clock + 1) % s.base_neighbor_size in
    if s.base_neighbor_size == 0 then s else record s {
      incoming_frame_counter_clock = i;
      base_neighbor = update s.base_neighbor i (expire key_seq_number (s.base_neighbor i));
    }

next_loop-First : (test : ℕ → Bool) (k i : ℕ) → First test i k (next_loop test k i)
unfolding next_loop
next_loop-First test zero i = First-end test i
next_loop-First test (suc k) i = elim (Bool-cases (test i)) [
  | inl found ↦ rw found (First-here test i k found)
  | inr missed ↦ rw missed (First-later test i k _ missed (next_loop-First test k (i + 1)))
]

-- The first entry from `i` on that passes, or none.
abbrev pub IsFirstFrom : (ℕ → Bool) → Neighbors → ℕ → ℕ → Type 0
IsFirstFrom test s i r =
    ((i ≤ r)
      × (r < s.base_neighbor_used)
      × (test r ≡ true)
      × ((j : ℕ) → i ≤ j → j < r → test j ≡ false))
    ⊎ ((r ≡ no_next) × ((j : ℕ) → i ≤ j → j < s.base_neighbor_used → test j ≡ false))

next_i-IsFirstFrom :
    (test : ℕ → Bool) (s : Neighbors) (i : ℕ) → IsFirstFrom test s i (next_i test s i)
unfolding next_i
next_i-IsFirstFrom test s i =
    let k = s.base_neighbor_used - i in
    let r = next_loop test k i in
    let first = next_loop-First test k i in
    let low = first.from in
    let high = first.upto in
    elim (Bool-cases (leb s.base_neighbor_used r)) [
      | inl end ↦ rw end (inr (refl, λ j from below. first.before j from (ground arith)))
      | inr found ↦ rw found (inl (low, ground arith, first.passes (ground arith), first.before))
    ]

-- `zb_nwk_neighbor_next_rx_on_i`, `zb_nwk_neighbor_next_ze_children_i` and
-- `zb_nwk_neighbor_next_ze_children_rx_off_i` return the first entry of their kind from `i` on among
-- those in the base table, or ~0 when there is none.
pub neighbor_next_i-IsFirstFrom :
    (s : Neighbors) (addr i : ℕ)
    → IsFirstFrom (is_rx_on s) s i (neighbor_next_rx_on_i s i)
      × IsFirstFrom (is_ze_child s addr) s i (neighbor_next_ze_children_i s addr i)
      × IsFirstFrom (is_rx_off_child s) s i (neighbor_next_ze_children_rx_off_i s i)
unfolding neighbor_next_rx_on_i neighbor_next_ze_children_i neighbor_next_ze_children_rx_off_i
neighbor_next_i-IsFirstFrom s addr i = (
  next_i-IsFirstFrom (is_rx_on s) s i,
  next_i-IsFirstFrom (is_ze_child s addr) s i,
  next_i-IsFirstFrom (is_rx_off_child s) s i,
)
