-- ===== src/Shorts/Add.antt =====
-- `add_short_sorted` on a table in order: the new element goes behind all that are not larger, and
-- the table stays in order.
use zboss.Base.{
  if◌then◌else◌, ◌==◌, ℕ, ◌+◌, ◌-◌, ◌≤◌, ◌<◌, ◌≡◌, refl, sym, ap, ◌∙◌, update_ne, memmove, arith,
  true, false, ltb, leb, Bool-cases, inl, inr, ◌&&◌,
}
use native.Mathlib.Decide.{dec_lt}
use zboss.Shorts.{Shorts, addr_at, add_place, add_short_sorted}
use zboss.Shorts.Place.{add_place-Above}
use zboss.Shorts.Order.{Sorted}
use zboss.Shorts.Search.{Found, short_search-Sorted}

module _ (s : Shorts) (short_addr : ℕ) (sorted : Sorted s) where
  module _ (ref : ℕ) where
    added_before :
        (i : ℕ)
        → i < add_place s short_addr
        → (add_short_sorted s ref short_addr).short_sorted i ≡ s.short_sorted i
    unfolding add_short_sorted memmove
    added_before i before = elim (Bool-cases (ltb (add_place s short_addr) s.n_sorted_elements)) [
      | inl inner ↦ rw inner (ground arith)
      | inr end ↦ rw end (ground arith)
    ]

    added_at : (add_short_sorted s ref short_addr).short_sorted (add_place s short_addr) ≡ ref
    unfolding add_short_sorted
    added_at = ground arith

    added_behind :
        (i : ℕ)
        → add_place s short_addr ≤ i
        → i < s.n_sorted_elements
        → (add_short_sorted s ref short_addr).short_sorted (i + 1) ≡ s.short_sorted i
    unfolding add_short_sorted memmove
    added_behind i behind inside =
        let l = add_place s short_addr in
        let inner : ltb l s.n_sorted_elements ≡ true = ground arith in
        let moved : (leb (l + 1) (i + 1) && ltb (i + 1) (l + 1 + (s.n_sorted_elements - l)))
            ≡ true =
          ground arith in
        rw inner (
          update_ne (memmove s.short_sorted (l + 1) l (s.n_sorted_elements - l)) l (i + 1) ref
            (omega arith)
          ∙ rw moved (ap s.short_sorted (omega arith)))

    added_beyond :
        (i : ℕ)
        → s.n_sorted_elements < i
        → (add_short_sorted s ref short_addr).short_sorted i ≡ s.short_sorted i
    unfolding add_short_sorted memmove
    added_beyond i beyond =
        let l = add_place s short_addr in
        let top = (add_place-Above s short_addr sorted).0 in
        elim (Bool-cases (ltb l s.n_sorted_elements)) [
          | inl inner ↦
              let still : (leb (l + 1) i && ltb i (l + 1 + (s.n_sorted_elements - l))) ≡ false =
                ground arith in
              rw inner (
                update_ne (memmove s.short_sorted (l + 1) l (s.n_sorted_elements - l)) l i ref
                  (omega arith)
                ∙ rw still refl)
          | inr end ↦ rw end (update_ne s.short_sorted l i ref (omega arith))
        ]

    module _ (stored : s.addr ref ≡ short_addr) where
      -- What the new table has at the places before the new element, at its place and behind it.
      module _ (i : ℕ) where
        value_before :
            i < add_place s short_addr → addr_at (add_short_sorted s ref short_addr) i ≡ addr_at s i
        unfolding add_short_sorted
        value_before before = ap s.addr (added_before i before)

        value_at :
            i ≡ add_place s short_addr → addr_at (add_short_sorted s ref short_addr) i ≡ short_addr
        unfolding add_short_sorted
        value_at place =
            ap (addr_at (add_short_sorted s ref short_addr)) place ∙ ap s.addr added_at ∙ stored

        value_behind :
            add_place s short_addr < i
            → i ≤ s.n_sorted_elements
            → addr_at (add_short_sorted s ref short_addr) i ≡ addr_at s (i - 1)
        unfolding add_short_sorted
        value_behind behind inside =
            let back : i - 1 + 1 ≡ i = omega arith in
            ap (addr_at (add_short_sorted s ref short_addr)) (sym back)
            ∙ ap s.addr (added_behind (i - 1) (omega arith) (omega arith))

      at_least :
          (j : ℕ)
          → add_place s short_addr ≤ j
          → j ≤ s.n_sorted_elements
          → short_addr ≤ addr_at (add_short_sorted s ref short_addr) j
      at_least j behind inside = elim (dec_lt (add_place s short_addr) j) [
        | yes p ↦ omega (
          arith,
          value_behind j p inside,
          (add_place-Above s short_addr sorted).1.larger (j - 1) (omega arith) (omega arith),
        )
        | no p ↦ omega (arith, value_at j (omega arith))
      ]

      add_short_sorted-Sorted : Sorted (add_short_sorted s ref short_addr)
      unfolding add_short_sorted
      add_short_sorted-Sorted i j ord inside = elim (dec_lt i (add_place s short_addr)) [
        | yes low ↦ elim (dec_lt j (add_place s short_addr)) [
          | yes p ↦
              let top = (add_place-Above s short_addr sorted).0 in
              omega (arith, value_before i low, value_before j p, sorted i j ord (omega arith))
          | no p ↦ omega (
            arith,
            value_before i low,
            (add_place-Above s short_addr sorted).1.smaller i low,
            at_least j (omega arith) (omega arith),
          )
        ]
        | no p ↦ elim (dec_lt (add_place s short_addr) i) [
          | yes high ↦ omega (
            arith,
            value_behind i high (omega arith),
            value_behind j (omega arith) (omega arith),
            sorted (i - 1) (j - 1) (omega arith) (omega arith),
          )
          | no q ↦ omega (arith, value_at i (omega arith), at_least j (omega arith) (omega arith))
        ]
      ]

element :
    (s : Shorts) (ref short_addr i : ℕ)
    → Sorted s
    → (add_short_sorted s ref short_addr).short_sorted i ≡ (
        if i == add_place s short_addr
        then ref
        else if ltb (add_place s short_addr) i && leb i s.n_sorted_elements
        then s.short_sorted (i - 1)
        else s.short_sorted i)
element s ref short_addr i sorted =
    let p = add_place s short_addr in
    let array = (add_short_sorted s ref short_addr).short_sorted in
    elim (Bool-cases (i == p)) [
      | inl at ↦
          let same : i ≡ p = ground arith in
          rw at (ap array same ∙ added_at s short_addr sorted ref)
      | inr apart ↦ elim (Bool-cases (ltb p i && leb i s.n_sorted_elements)) [
        | inl behind ↦
            let back : i ≡ i - 1 + 1 = ground arith in
            rw (apart, behind)
              (ap array back
                ∙ added_behind s short_addr sorted ref (i - 1) (ground arith) (ground arith))
        | inr other ↦
            rw (apart, other)
              (elim (dec_lt i p) [
                | yes q ↦ added_before s short_addr sorted ref i q
                | no q ↦ added_beyond s short_addr sorted ref i (ground arith)
              ])
      ]
    ]

-- `add_short_sorted` puts the reference at a place inside the table or right behind it, moves the
-- elements from there on up by one, and writes nowhere else in the array.
pub add_short_sorted-elements :
    (s : Shorts) (ref short_addr i : ℕ)
    → Sorted s
    → let p = add_place s short_addr in
      (p ≤ s.n_sorted_elements)
      × ((add_short_sorted s ref short_addr).n_sorted_elements ≡ s.n_sorted_elements + 1)
      × ((add_short_sorted s ref short_addr).short_sorted i ≡ (
          if i == p
          then ref
          else if ltb p i && leb i s.n_sorted_elements
          then s.short_sorted (i - 1)
          else s.short_sorted i))
unfolding add_short_sorted
add_short_sorted-elements s ref short_addr i sorted =
    let p = add_place s short_addr in
    let top = (add_place-Above s short_addr sorted).0 in
    (top, refl, element s ref short_addr i sorted)

place_inside :
    (s : Shorts) (ref short_addr : ℕ)
    → Sorted s
    → add_place s short_addr < (add_short_sorted s ref short_addr).n_sorted_elements
unfolding add_short_sorted
place_inside s ref short_addr sorted = omega (arith, (add_place-Above s short_addr sorted).0)

-- On a table in the order of its addresses, and for a reference whose entry has the new address, `add_short_sorted` keeps the table in the order of its
-- addresses, and `short_search` then finds an element with the address.
pub short_search-add_short_sorted :
    (s : Shorts) (ref short_addr : ℕ)
    → Sorted s
    → s.addr ref ≡ short_addr
    → Sorted (add_short_sorted s ref short_addr)
      × Found (add_short_sorted s ref short_addr) short_addr
short_search-add_short_sorted s ref short_addr sorted stored =
    let s' = add_short_sorted s ref short_addr in
    let sorted' = add_short_sorted-Sorted s short_addr sorted ref stored in
    (
      sorted',
      elim (short_search-Sorted s' short_addr sorted') [
        | inl found ↦ found
        | inr absent ↦ absurd (
            absent.1 (add_place s short_addr) (place_inside s ref short_addr sorted)
              (value_at s short_addr sorted ref stored (add_place s short_addr) refl))
      ],
    )
