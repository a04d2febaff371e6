-- ===== src/Neighbors/Pack.antt =====
-- What the packing loop of `zb_nwk_exneighbor_start` in nwk/nwk_neighbor.c leaves behind.
use zboss.Base.{
  ℕ, zero, suc, ◌+◌, ◌-◌, ◌<◌, ◌≤◌, ◌≡◌, refl, ap, ◌∙◌, arith, true, false, ◌&&◌, ◌==◌, ltb,
  Bool-cases, inl, inr,
}
use zboss.Neighbors.{Neighbors}
use zboss.Neighbors.Start.{pack_move, pack_loop, pack}

module _ (s : Neighbors) (i hole p : ℕ) (apart : p + hole < i) where
  pack_move-before : (pack_move s i hole).base_neighbor p ≡ s.base_neighbor p
  unfolding pack_move
  pack_move-before =
      let at_i : (p == i) ≡ false = ground arith in
      let to : (p == i - hole) ≡ false = ground arith in rw (at_i, to) refl

-- The loop writes nowhere in front of the place that it moves to.
pack_loop-before :
    (k : ℕ) (s : Neighbors) (i used hole p : ℕ)
    → p + hole < i
    → (pack_loop k s i used hole).base_neighbor p ≡ s.base_neighbor p
unfolding pack_loop
pack_loop-before zero s i used hole p apart = refl
pack_loop-before (suc k) s i used hole p apart =
    elim (Bool-cases (ltb i s.base_neighbor_size && ltb used s.base_neighbor_used)) [
      | inr end ↦ rw end refl
      | inl more ↦ rw more (elim (Bool-cases (s.base_neighbor i).used) [
        | inr free ↦ rw free (pack_loop-before k s (i + 1) used (hole + 1) p (omega arith))
        | inl taken ↦ rw taken (elim (Bool-cases (ltb 0 hole)) [
          | inl some_hole ↦ rw some_hole (
              pack_loop-before k (pack_move s i hole) (i + 1) (used + 1) (hole - 1) p (omega arith)
              ∙ pack_move-before s i hole p apart)
          | inr no_hole ↦
              rw no_hole (pack_loop-before k s (i + 1) (used + 1) (hole - 1) p (omega arith))
        ])
      ])
    ]

-- One round of the loop that goes on.
module _ (s : Neighbors) (k i used hole : ℕ) (inside : i < s.base_neighbor_size)
    (more : used < s.base_neighbor_used) where
  goes_on : (ltb i s.base_neighbor_size && ltb used s.base_neighbor_used) ≡ true
  goes_on = ground arith

  round_free :
      (s.base_neighbor i).used ≡ false
      → pack_loop (suc k) s i used hole ≡ pack_loop k s (i + 1) used (hole + 1)
  unfolding pack_loop
  round_free free = rw (goes_on, free) refl

  round_move :
      (s.base_neighbor i).used ≡ true
      → 0 < hole
      → pack_loop (suc k) s i used hole
        ≡ pack_loop k (pack_move s i hole) (i + 1) (used + 1) (hole - 1)
  unfolding pack_loop
  round_move taken some_hole =
      let test : ltb 0 hole ≡ true = ground arith in rw (goes_on, taken, test) refl

  round_stay :
      (s.base_neighbor i).used ≡ true
      → hole ≡ 0
      → pack_loop (suc k) s i used hole ≡ pack_loop k s (i + 1) (used + 1) (hole - 1)
  unfolding pack_loop
  round_stay taken no_hole =
      let test : ltb 0 hole ≡ false = ground arith in rw (goes_on, taken, test) refl

module _ (s : Neighbors) (k : ℕ) (size : s.base_neighbor_size ≡ suc (suc (suc k)))
    (more : 1 < s.base_neighbor_used) (free : (s.base_neighbor 0).used ≡ false)
    (taken : (s.base_neighbor 1).used ≡ true) (taken' : (s.base_neighbor 2).used ≡ true) where
  -- The entry at 1 has gone to 0.
  moved : Neighbors
  moved = pack_move s 1 1

  moved_fields :
      (moved.base_neighbor_size ≡ s.base_neighbor_size)
      × (moved.base_neighbor_used ≡ s.base_neighbor_used)
      × (moved.base_neighbor 0 ≡ s.base_neighbor 1)
      × ((moved.base_neighbor 1).used ≡ false)
      × (moved.base_neighbor 2 ≡ s.base_neighbor 2)
  unfolding moved pack_move
  moved_fields = (refl, refl, refl, refl, refl)

  three_rounds : pack s ≡ pack_loop k moved 3 2 0
  unfolding pack moved
  three_rounds =
      let some_used : (s.base_neighbor_used == 0) ≡ false = ground arith in
      let (size', used', _, _, third) = moved_fields in
      rw some_used (
        ap (λ n. pack_loop n s 0 0 0) size
        ∙ round_free s (suc (suc k)) 0 0 0 (omega arith) (omega arith) free
        ∙ round_move s (suc k) 1 0 1 (omega arith) (omega arith) taken (omega arith)
        ∙ round_stay moved k 2 1 0 (omega arith) (omega arith) (ap (λ e. e.used) third ∙ taken')
            refl)

  gap :
      ((pack s).base_neighbor 0 ≡ s.base_neighbor 1)
      × (((pack s).base_neighbor 1).used ≡ false)
      × ((pack s).base_neighbor 2 ≡ s.base_neighbor 2)
  gap =
      let (_, _, first, second, third) = moved_fields in
      rw three_rounds (
        pack_loop-before k moved 3 2 0 0 (omega arith) ∙ first,
        ap (λ e. e.used) (pack_loop-before k moved 3 2 0 1 (omega arith)) ∙ second,
        pack_loop-before k moved 3 2 0 2 (omega arith) ∙ third,
      )

-- On every table of at least three places in which the first place is free, the next two are in use
-- and two or more entries are counted, the packing of `zb_nwk_exneighbor_start` moves the second place's entry to the first,
-- and leaves a gap: the second place is then free, and the third place's entry stays where it is.
pub pack-gap :
    (s : Neighbors)
    → 3 ≤ s.base_neighbor_size
    → 1 < s.base_neighbor_used
    → (s.base_neighbor 0).used ≡ false
    → (s.base_neighbor 1).used ≡ true
    → (s.base_neighbor 2).used ≡ true
    → ((pack s).base_neighbor 0 ≡ s.base_neighbor 1)
      × (((pack s).base_neighbor 1).used ≡ false)
      × ((pack s).base_neighbor 2 ≡ s.base_neighbor 2)
pack-gap s big more free taken taken' =
    gap s (s.base_neighbor_size - 3) (omega arith) more free taken taken'
