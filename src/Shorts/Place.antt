-- ===== src/Shorts/Place.antt =====
-- Where `add_short_sorted` puts a new element: no element before the place is larger, and none behind
-- is smaller.
use zboss.Base.{
  ℕ, zero, suc, ◌+◌, ◌-◌, ◌/◌, ◌≤◌, ◌<◌, ◌≡◌, refl, sym, subst, arith, true, false, ltb, leb,
  Bool-cases, inl, inr, ◌&&◌,
}
use zboss.Shorts.{Shorts, addr_at, add_loop, add_search, add_place}
use zboss.Shorts.Order.{Sorted, Above}

module _ (s : Shorts) (short_addr : ℕ) (sorted : Sorted s) where
  step_right :
      (l i r : ℕ)
      → i < s.n_sorted_elements
      → addr_at s i ≤ short_addr
      → Above s short_addr l r
      → Above s short_addr (i + 1) r
  step_right l i r inside low b = record {
    smaller = λ j h. omega (arith, sorted j i (omega arith) inside);
    larger = b.larger;
  }

  step_left :
      (l i r : ℕ) → short_addr < addr_at s i → Above s short_addr l r → Above s short_addr l i
  step_left l i r high b = record {
    smaller = b.smaller;
    larger = λ j h inside. omega (arith, sorted i j h inside);
  }

  loop-Above :
      (k l r : ℕ)
      → r ≤ k + l
      → l ≤ r
      → r ≤ s.n_sorted_elements
      → Above s short_addr l r
      → let p = add_loop k s short_addr l r in (p ≤ r) × Above s short_addr p p
  unfolding add_loop
  loop-Above zero l r fuel ord top b =
      (ord, record { smaller = b.smaller; larger = λ j h inside. b.larger j (omega arith) inside })
  loop-Above (suc k) l r fuel ord top b =
      let i = l + (r - l) / 2 in
      elim (Bool-cases (ltb l r)) [
        | inr stop ↦ rw stop (
          ord,
          record { smaller = b.smaller; larger = λ j h inside. b.larger j (ground arith) inside },
        )
        | inl go ↦
            let open_range : l < r = ground arith in
            elim (Bool-cases (leb (addr_at s i) short_addr)) [
              | inl low ↦
                  rw (go, low)
                    (loop-Above k (i + 1) r (omega arith) (omega arith) top
                      (step_right l i r (omega arith) (ground arith) b))
              | inr high ↦
                  let (bound, found) =
                    loop-Above k l i (omega arith) (omega arith) (omega arith)
                      (step_left l i r (ground arith) b) in
                  rw (go, high) (omega arith, found)
            ]
      ]

  search-Above :
      1 < s.n_sorted_elements
      → let p = add_search s short_addr in (p ≤ s.n_sorted_elements) × Above s short_addr p p
  unfolding add_search
  search-Above many =
      let n = s.n_sorted_elements in
      let start : Above s short_addr 0 n = record {
        smaller = λ j h. omega arith;
        larger = λ j h inside. omega arith;
      } in
      let test : ltb 1 n ≡ true = ground arith in
      rw test (loop-Above n 0 n (omega arith) (omega arith) (omega arith) start)

  search_none : s.n_sorted_elements ≤ 1 → add_search s short_addr ≡ 0
  unfolding add_search
  search_none few = let test : ltb 1 s.n_sorted_elements ≡ false = ground arith in rw test refl

  -- The place of the new element is inside the table or right behind it.
  pub add_place-Above :
      let p = add_place s short_addr in (p ≤ s.n_sorted_elements) × Above s short_addr p p
  unfolding add_place
  add_place-Above =
      let n = s.n_sorted_elements in
      let l = add_search s short_addr in
      elim (Bool-cases (ltb 1 n)) [
        | inl many ↦
            let (bound, b) = search-Above (ground arith) in
            elim (Bool-cases (ltb 0 n && ltb l n && ltb (addr_at s l) short_addr)) [
              | inl more ↦
                  let again : short_addr ≤ addr_at s l = b.larger l (omega arith) (ground arith) in
                  ground arith
              | inr stay ↦ rw stay (bound, b)
            ]
        | inr few ↦
            rw (search_none (ground arith))
              (elim (Bool-cases (ltb 0 n && ltb 0 n && ltb (addr_at s 0) short_addr)) [
                | inl more ↦ rw more (
                  ground arith,
                  record {
                    smaller = λ j h.
                        let first : j ≡ 0 = omega arith in
                        subst (λ k. addr_at s k ≤ short_addr) (sym first) (ground arith);
                    larger = λ j h inside. ground arith;
                  },
                )
                | inr stay ↦ rw stay (
                  omega arith,
                  record {
                    smaller = λ j h. omega arith;
                    larger = λ j h inside.
                        let first : j ≡ 0 = ground arith in
                        subst (λ k. short_addr ≤ addr_at s k) (sym first) (ground arith);
                  },
                )
              ])
      ]
