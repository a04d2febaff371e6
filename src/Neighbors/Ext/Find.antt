-- ===== src/Neighbors/Ext/Find.antt =====
-- What `zb_nwk_exneighbor_by_short` of nwk/nwk_neighbor.c hands out, it finds again.
use zboss.Base.{
  ℕ, zero, suc, ◌+◌, ◌<◌, ◌≡◌, refl, ap, ◌∙◌, arith, true, false, ◌==◌, ltb, Bool-cases, inl, inr,
  ◌⊎◌, Option, none, some, update, First, First-end, First-here, First-later, First-unique,
}
use zboss.Alarm.{ok, no_memory}
use zboss.Neighbors.{Neighbors, zero_ext_neighbor}
use zboss.Neighbors.Ext.{is_ext_short, ext_short_loop, exneighbor_by_short, alloc_new_extneiboard}

module _ (s : Neighbors) (panid_ref short_addr : ℕ) where
  ext_short_loop-First :
      (k i : ℕ)
      → First (is_ext_short s panid_ref short_addr) i k (ext_short_loop k s panid_ref short_addr i)
  unfolding ext_short_loop
  ext_short_loop-First zero i = First-end _ i
  ext_short_loop-First (suc k) i =
      let test = is_ext_short s panid_ref short_addr in
      elim (Bool-cases (test i)) [
        | inl found ↦ rw found (First-here test i k found)
        | inr missed ↦ rw missed (First-later test i k _ missed (ext_short_loop-First k (i + 1)))
      ]

module _ (s : Neighbors) (panid_ref short_addr : ℕ) where
  -- The table with a new entry.
  allocated : Neighbors
  allocated = record s {
    ext_neighbor_used = s.ext_neighbor_used + 1;
    ext_neighbor =
        update s.ext_neighbor s.ext_neighbor_used
          (record zero_ext_neighbor { short_addr = short_addr; panid_ref = panid_ref });
  }

  new_passes : is_ext_short allocated panid_ref short_addr s.ext_neighbor_used ≡ true
  unfolding is_ext_short allocated
  new_passes = ground arith

  old_same :
      (j : ℕ)
      → j < s.ext_neighbor_used
      → is_ext_short allocated panid_ref short_addr j ≡ is_ext_short s panid_ref short_addr j
  unfolding is_ext_short allocated
  old_same j below = let other : (j == s.ext_neighbor_used) ≡ false = ground arith in rw other refl

  -- A new entry is the first for its addresses.
  allocated-First :
      ((j : ℕ) → j < s.ext_neighbor_used → is_ext_short s panid_ref short_addr j ≡ false)
      → ext_short_loop (s.ext_neighbor_used + 1) allocated panid_ref short_addr 0
        ≡ s.ext_neighbor_used
  allocated-First none_has =
      let n = s.ext_neighbor_used in
      First-unique (is_ext_short allocated panid_ref short_addr) 0 (n + 1) _ n
        (ext_short_loop-First allocated panid_ref short_addr (n + 1) 0)
        (record {
          from = omega arith;
          upto = omega arith;
          before = λ j _ below. old_same j below ∙ none_has j below;
          passes = λ _. new_passes;
        })

  -- An entry that is there, or a new one.
  found_or_new :
      let i = ext_short_loop s.ext_neighbor_used s panid_ref short_addr 0 in
      (ltb i s.ext_neighbor_used ≡ false)
      → ext_short_loop (s.ext_neighbor_used + 1) allocated panid_ref short_addr 0
        ≡ s.ext_neighbor_used
  found_or_new missed =
      let first = ext_short_loop-First s panid_ref short_addr s.ext_neighbor_used 0 in
      allocated-First (λ j below. first.before j (omega arith) (ground arith))

-- The entry has these addresses.
abbrev pub IsFor : ℕ → ℕ → Neighbors → Option ℕ → Type 0
IsFor panid_ref short_addr s none = ⊥
IsFor panid_ref short_addr s (some i) =
    (i < s.ext_neighbor_used)
    × ((s.ext_neighbor i).short_addr ≡ short_addr)
    × ((s.ext_neighbor i).panid_ref ≡ panid_ref)

module _ (s : Neighbors) (panid_ref short_addr : ℕ) where
  -- The branches of the function.
  by_found :
      let i = ext_short_loop s.ext_neighbor_used s panid_ref short_addr 0 in
      (ltb i s.ext_neighbor_used ≡ true)
      → exneighbor_by_short s panid_ref short_addr ≡ (ok, some i, s)
  unfolding exneighbor_by_short
  by_found found = rw found refl

  by_full :
      let i = ext_short_loop s.ext_neighbor_used s panid_ref short_addr 0 in
      (ltb i s.ext_neighbor_used ≡ false)
      → (s.ext_neighbor_used == s.ext_neighbor_size) ≡ true
      → exneighbor_by_short s panid_ref short_addr ≡ (no_memory, none, s)
  unfolding exneighbor_by_short alloc_new_extneiboard
  by_full missed full = rw (missed, full) refl

  by_room :
      let i = ext_short_loop s.ext_neighbor_used s panid_ref short_addr 0 in
      (ltb i s.ext_neighbor_used ≡ false)
      → (s.ext_neighbor_used == s.ext_neighbor_size) ≡ false
      → exneighbor_by_short s panid_ref short_addr
        ≡ (ok, some s.ext_neighbor_used, allocated s panid_ref short_addr)
  unfolding exneighbor_by_short alloc_new_extneiboard allocated
  by_room missed room = rw (missed, room) refl

by_room-again :
    (s : Neighbors) (panid_ref short_addr : ℕ)
    → let i = ext_short_loop s.ext_neighbor_used s panid_ref short_addr 0 in
      (ltb i s.ext_neighbor_used ≡ false)
      → let t = allocated s panid_ref short_addr in
        exneighbor_by_short t panid_ref short_addr ≡ (ok, some s.ext_neighbor_used, t)
by_room-again s panid_ref short_addr missed =
    let n = s.ext_neighbor_used in
    let t = allocated s panid_ref short_addr in
    let size : t.ext_neighbor_used ≡ n + 1 = unfold allocated in refl in
    let at : ext_short_loop t.ext_neighbor_used t panid_ref short_addr 0 ≡ n =
      ap (λ k. ext_short_loop k t panid_ref short_addr 0) size
      ∙ found_or_new s panid_ref short_addr missed in
    by_found t panid_ref short_addr (rw (at, size) (ground arith)) ∙ ap (λ k. (ok, some k, t)) at

passes_IsFor :
    (s : Neighbors) (panid_ref short_addr i : ℕ)
    → i < s.ext_neighbor_used
    → is_ext_short s panid_ref short_addr i ≡ true
    → IsFor panid_ref short_addr s (some i)
unfolding is_ext_short
passes_IsFor s panid_ref short_addr i inside h = (inside, ground arith, ground arith)

-- `zb_nwk_exneighbor_by_short` returns RET_OK and an entry in use with the two addresses, and called
-- again returns the same and changes nothing; or there is neither such an entry nor room for one,
-- the code is RET_NO_MEMORY and nothing changes.
pub exneighbor_by_short-exneighbor_by_short :
    (s : Neighbors) (panid_ref short_addr : ℕ)
    → let (ret, i, s') = exneighbor_by_short s panid_ref short_addr in
      ((ret ≡ ok)
        × IsFor panid_ref short_addr s' i
        × (exneighbor_by_short s' panid_ref short_addr ≡ (ok, i, s')))
      ⊎ ((ret ≡ no_memory)
          × (s' ≡ s)
          × (s.ext_neighbor_used ≡ s.ext_neighbor_size)
          × ((j : ℕ) → j < s.ext_neighbor_used → is_ext_short s panid_ref short_addr j ≡ false))
exneighbor_by_short-exneighbor_by_short s panid_ref short_addr =
    let n = s.ext_neighbor_used in
    let i = ext_short_loop n s panid_ref short_addr 0 in
    let first = ext_short_loop-First s panid_ref short_addr n 0 in
    let t = allocated s panid_ref short_addr in
    elim (Bool-cases (ltb i n)) [
      | inl found ↦
          let once = by_found s panid_ref short_addr found in
          rw once (
            inl (
              refl,
              passes_IsFor s panid_ref short_addr i (ground arith) (first.passes (ground arith)),
              once,
            ))
      | inr missed ↦ elim (Bool-cases (n == s.ext_neighbor_size)) [
        | inl full ↦
            rw (by_full s panid_ref short_addr missed full) (
              inr
                (refl, refl, ground arith, λ j below. first.before j (omega arith) (ground arith)))
        | inr room ↦
            let size : t.ext_neighbor_used ≡ n + 1 = unfold allocated in refl in
            rw (by_room s panid_ref short_addr missed room) (
              inl (
                refl,
                passes_IsFor t panid_ref short_addr n (omega arith)
                    (new_passes s panid_ref short_addr),
                by_room-again s panid_ref short_addr missed,
              ))
      ]
    ]
