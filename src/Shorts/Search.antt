-- ===== src/Shorts/Search.antt =====
-- `short_search` on a table in order: it finds an address exactly when the table has it.
use zboss.Base.{
  ℕ, zero, suc, ◌+◌, ◌-◌, ◌/◌, ◌≤◌, ◌<◌, ◌≡◌, ◌≢◌, refl, subst, arith, true, false, ltb, ◌==◌,
  Bool-cases, inl, inr, none, some, ◌&&◌, ◌⊎◌,
}
use zboss.Shorts.{Shorts, addr_at, search_loop, search_place, short_search}
use zboss.Shorts.Order.{Sorted, Between}

ltb-true : (a b : ℕ) → ltb a b ≡ true → a < b
ltb-true a b h = ground arith

ltb-false : (a b : ℕ) → ltb a b ≡ false → b ≤ a
ltb-false a b h = ground arith

module _ (s : Shorts) (short_addr : ℕ) (sorted : Sorted s) where
  go_right :
      (l i r : ℕ)
      → i < s.n_sorted_elements
      → addr_at s i < short_addr
      → Between s short_addr l r
      → Between s short_addr (i + 1) r
  go_right l i r inside low b = record {
    smaller = λ j h. omega (arith, sorted j i (omega arith) inside);
    larger = b.larger;
  }

  go_left :
      (l i r : ℕ) → short_addr ≤ addr_at s i → Between s short_addr l r → Between s short_addr l i
  go_left l i r high b = record {
    smaller = b.smaller;
    larger = λ j h inside. omega (arith, sorted i j h inside);
  }

  loop-Between :
      (k l r : ℕ)
      → r ≤ k + l
      → l ≤ r
      → r ≤ s.n_sorted_elements
      → Between s short_addr l r
      → let p = search_loop k s short_addr l r in (p ≤ r) × Between s short_addr p p
  unfolding search_loop
  loop-Between zero l r fuel ord top b =
      (ord, record { smaller = b.smaller; larger = λ j h inside. b.larger j (omega arith) inside })
  loop-Between (suc k) l r fuel ord top b =
      let i = l + (r - l) / 2 in
      elim (Bool-cases (ltb l r)) [
        | inr stop ↦
            let done = ltb-false l r stop in
            rw stop (
              ord,
              record {
                smaller = b.smaller;
                larger = λ j h inside. b.larger j (omega arith) inside;
              },
            )
        | inl go ↦
            let open_range = ltb-true l r go in
            elim (Bool-cases (ltb (addr_at s i) short_addr)) [
              | inl low ↦
                  rw (go, low)
                    (loop-Between k (i + 1) r (omega arith) (omega arith) top
                      (go_right l i r (omega arith) (ltb-true _ _ low) b))
              | inr high ↦
                  let (bound, found) =
                    loop-Between k l i (omega arith) (omega arith) (omega arith)
                      (go_left l i r (ltb-false _ _ high) b) in
                  rw (go, high) (omega arith, found)
            ]
      ]

  place-Between :
      1 < s.n_sorted_elements → let p = search_place s short_addr in Between s short_addr p p
  unfolding search_place
  place-Between many =
      let n = s.n_sorted_elements in
      let start : Between s short_addr 0 n = record {
        smaller = λ j h. omega arith;
        larger = λ j h inside. omega arith;
      } in
      let test : ltb 1 n ≡ true = ground arith in
      rw test (loop-Between n 0 n (omega arith) (omega arith) (omega arith) start).1

  -- If an element has the address, so has the one at the place.
  place_lem :
      (i : ℕ)
      → i < s.n_sorted_elements
      → addr_at s i ≡ short_addr
      → (search_place s short_addr < s.n_sorted_elements)
        × (addr_at s (search_place s short_addr) ≡ short_addr)
  unfolding search_place
  place_lem i inside same = elim (Bool-cases (ltb 1 s.n_sorted_elements)) [
    | inl many ↦
        let p = search_place s short_addr in
        let b = place-Between (ltb-true _ _ many) in
        let not_before : p ≤ i = elim (Bool-cases (ltb i p)) [
          | inl lt ↦ omega (arith, b.smaller i (ltb-true _ _ lt), same)
          | inr ge ↦ ltb-false _ _ ge
        ] in
        (
          omega (arith, not_before),
          omega (
            arith,
            sorted p i not_before inside,
            b.larger p (omega arith) (omega (arith, not_before)),
          ),
        )
    | inr few ↦
        let only : i ≡ 0 = omega (arith, ltb-false _ _ few) in
        rw few (omega arith, subst (λ k. addr_at s k ≡ short_addr) only same)
  ]

  missed :
      (i : ℕ)
      → i < s.n_sorted_elements
      → addr_at s i ≡ short_addr
      → let p = search_place s short_addr in
        (ltb 0 s.n_sorted_elements && ltb p s.n_sorted_elements && short_addr == addr_at s p)
          ≡ false
        → ⊥
  missed i inside same miss = ground (arith, place_lem i inside same)

-- The reference that the search hands out, or that no element has the address.
abbrev pub Found : Shorts → ℕ → Type 0
Found s short_addr =
    (i : ℕ) × (i < s.n_sorted_elements)
    × (short_search s short_addr ≡ some (s.short_sorted i))
    × (addr_at s i ≡ short_addr)

abbrev pub Absent : Shorts → ℕ → Type 0
Absent s short_addr =
    (short_search s short_addr ≡ none)
    × ((i : ℕ) → i < s.n_sorted_elements → addr_at s i ≢ short_addr)

module _ (s : Shorts) (short_addr : ℕ) where
  at_place :
      (search_place s short_addr < s.n_sorted_elements)
      → addr_at s (search_place s short_addr) ≡ short_addr
      → Found s short_addr
  unfolding short_search
  at_place inside same =
      let p = search_place s short_addr in
      let hit : (ltb 0 s.n_sorted_elements
            && ltb p s.n_sorted_elements
            && short_addr == addr_at s p)
          ≡ true =
        ground arith in
      (p, inside, rw hit refl, same)

-- On a table in the order of its addresses `short_search` hands out the reference of an element with
-- the address, if there is one, and else reports that there is none.
pub short_search-Sorted :
    (s : Shorts) (short_addr : ℕ) → Sorted s → Found s short_addr ⊎ Absent s short_addr
unfolding short_search
short_search-Sorted s short_addr sorted =
    let p = search_place s short_addr in
    elim (Bool-cases
      (ltb 0 s.n_sorted_elements && ltb p s.n_sorted_elements && short_addr == addr_at s p)) [
        | inl hit ↦ inl (at_place s short_addr (ground arith) (ground arith))
        | inr miss ↦
            inr (rw miss refl, λ i inside same. missed s short_addr sorted i inside same miss)
      ]
