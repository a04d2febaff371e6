-- ===== src/Bind/Drop.antt =====
-- Removing a source that no destination has: the sources behind it move, and the indexes follow.
use zboss.Base.{
  ℕ, zero, suc, ◌+◌, ◌-◌, ◌%◌, ◌≤◌, ◌<◌, ◌≡◌, refl, sym, ap, ◌∙◌, subst, arith, true, false, ◌==◌,
  ◌&&◌, ltb, leb, if◌then◌else◌, Bool-cases, ◌∷◌, map, All, any, slice, slice_ext, memmove, update,
  All-map_ext, All-map, All-mono, any-map, map-map, All-any_ext, ltb→lt, inl, inr,
}
use native.Mathlib.Decide.{dec_lt}
use zboss.Bind.{
  BindDst, Binding, correct_row, correct_loop, remove_source, src_table_size, dst_table_size,
}
use zboss.Bind.Valid.{rows, resolve, bindings}

first_row :
    (s : ℕ) (table : ℕ → BindDst) (n d i : ℕ)
    → d < n
    → (if leb (d + 1) i && ltb i n
        then correct_row s (update table d (correct_row s (table d)) i)
        else update table d (correct_row s (table d)) i)
      ≡ (if leb d i && ltb i n then correct_row s (table i) else table i)
first_row s table n d i inside = elim (Bool-cases (i == d)) [
  | inl same ↦
      let at : d ≡ i = ground arith in
      let past : leb (d + 1) i ≡ false = ground arith in
      let reached : (leb d i && ltb i n) ≡ true = ground arith in
      rw (past, reached, same) (ap (λ j. correct_row s (table j)) at)
  | inr apart ↦ let alike : leb (d + 1) i ≡ leb d i = ground arith in rw (alike, apart) refl
]

last_row :
    (s : ℕ) (table : ℕ → BindDst) (n d i : ℕ)
    → d < n
    → n ≤ d + 1
    → update table d (correct_row s (table d)) i
      ≡ (if leb d i && ltb i n then correct_row s (table i) else table i)
last_row s table n d i inside end = elim (Bool-cases (i == d)) [
  | inl same ↦
      let at : d ≡ i = ground arith in
      let reached : (leb d i && ltb i n) ≡ true = ground arith in
      rw (reached, same) (ap (λ j. correct_row s (table j)) at)
  | inr apart ↦ let beside : (leb d i && ltb i n) ≡ false = ground arith in rw (beside, apart) refl
]

correct_loop-row :
    (k s : ℕ) (table : ℕ → BindDst) (n d i : ℕ)
    → d < n
    → n ≤ k + d
    → correct_loop k s table n d i
      ≡ (if leb d i && ltb i n then correct_row s (table i) else table i)
unfolding correct_loop
correct_loop-row zero s table n d i inside fuel = absurd (omega arith)
correct_loop-row (suc k) s table n d i inside fuel = elim (dec_lt (d + 1) n) [
  | yes more ↦
      let go : ltb (d + 1) n ≡ true = ground arith in
      rw go (
        correct_loop-row k s (update table d (correct_row s (table d))) n (d + 1) i more
          (omega arith)
        ∙ first_row s table n d i inside)
  | no end ↦
      let stop : ltb (d + 1) n ≡ false = ground arith in
      rw stop (last_row s table n d i inside (omega arith))
]

-- Where the source at a place stood before.
unfoldable pub old_place : ℕ → ℕ → ℕ
old_place s i = if ltb i s then i else i + 1

old_place_eq : (s i j : ℕ) → (j == i) ≡ (old_place s j == old_place s i)
unfolding old_place
old_place_eq s i j = ground arith

-- A destination of another source.
abbrev pub Other : Binding → ℕ → BindDst → Type 0
Other b s e = (e.src_table_index < b.src_n_elements) × ((e.src_table_index == s) ≡ false)

slice-map {ℓ κ} :
    {A : Type ℓ} {B : Type κ} (g : A → B) (f : ℕ → A) (a n : ℕ)
    → slice (λ i. g (f i)) a n ≡ map g (slice f a n)
unfolding slice
slice-map g f a zero = refl
slice-map g f a (suc n) = ap (λ l. g (f a) ∷ l) (slice-map g f (a + 1) n)

module _ (b : Binding) (s : ℕ) (inside : s < b.src_n_elements)
    (src_fits : b.src_n_elements ≤ src_table_size)
    (dst_fits : b.dst_n_elements ≤ dst_table_size) where
  pub dropped-src :
      (i : ℕ)
      → i < b.src_n_elements - 1
      → (remove_source b s).src_table i ≡ b.src_table (old_place s i)
  unfolding remove_source old_place memmove
  dropped-src i h =
      let n : (b.src_n_elements + 255) % 256 ≡ b.src_n_elements - 1 = omega arith in
      rw n (elim (dec_lt i s) [
        | yes before ↦
            let test : ltb i s ≡ true = ground arith in
            let out : leb s i ≡ false = ground arith in rw (out, test) refl
        | no behind ↦
            let test : ltb i s ≡ false = ground arith in
            let hit : (leb s i && ltb i (s + (b.src_n_elements - 1 - s))) ≡ true = ground arith in
            rw (hit, test) (ap b.src_table (omega arith))
      ])

  pub dropped_n :
      ((remove_source b s).src_n_elements ≡ b.src_n_elements - 1)
      × ((remove_source b s).dst_n_elements ≡ b.dst_n_elements)
  unfolding remove_source
  dropped_n = (omega arith, refl)

  dropped-rows : rows (remove_source b s) ≡ map (correct_row s) (rows b)
  unfolding remove_source
  dropped-rows =
      slice_ext (correct_loop 256 s b.dst_table b.dst_n_elements 0)
        (λ i. correct_row s (b.dst_table i)) 0 0 b.dst_n_elements
        (λ i h.
          let used : (leb 0 (0 + i) && ltb (0 + i) b.dst_n_elements) ≡ true = ground arith in
          correct_loop-row 256 s b.dst_table b.dst_n_elements 0 (0 + i) (omega arith) (omega arith)
          ∙ rw used refl)
      ∙ slice-map (correct_row s) b.dst_table 0 b.dst_n_elements

  -- The corrected index of a destination of another source.
  corrected :
      (e : BindDst)
      → (e.src_table_index < b.src_n_elements) × ((e.src_table_index == s) ≡ false)
      → ((correct_row s e).src_table_index < b.src_n_elements - 1)
        × (old_place s (correct_row s e).src_table_index ≡ e.src_table_index)
        × ((correct_row s e).u ≡ e.u)
  unfolding correct_row old_place
  corrected e (below, other) = elim (Bool-cases (ltb s e.src_table_index)) [
    | inl behind ↦
        let now : ltb (e.src_table_index - 1) s ≡ false = ground arith in
        rw (behind, now) (omega (arith, ltb→lt _ _ behind), omega (arith, ltb→lt _ _ behind), refl)
    | inr before ↦
        let now : ltb e.src_table_index s ≡ true = ground arith in
        let lt : e.src_table_index < s = ground arith in rw (before, now) (omega arith, refl, refl)
  ]

  module _ (others : All (Other b s) (rows b)) where
    -- The bindings stay.
    pub remove_source-bindings : bindings (remove_source b s) ≡ bindings b
    unfolding bindings
    remove_source-bindings =
        let src' = (remove_source b s).src_table in
        ap (map (resolve src')) dropped-rows
        ∙ map-map (resolve src') (correct_row s) (rows b)
        ∙ All-map_ext (Other b s) (λ e. resolve src' (correct_row s e)) (resolve b.src_table)
            (rows b) others
            (λ e other.
              let (below, place, u) = corrected e other in
              let source =
                dropped-src (correct_row s e).src_table_index below ∙ ap b.src_table place in
              λ i. (source i, u i))

    pub remove_source-pointed :
        All (λ e. e.src_table_index < (remove_source b s).src_n_elements) (rows (remove_source b s))
    remove_source-pointed =
        let Small = λ (e : BindDst). e.src_table_index < (remove_source b s).src_n_elements in
        subst (All Small) (sym dropped-rows) (
          All-map Small (correct_row s) (rows b) (
            All-mono (Other b s) (λ e. Small (correct_row s e)) (rows b)
              (λ e other. omega (arith, (corrected e other).0, dropped_n.0)) others))

    pub remove_source-used :
        (i : ℕ)
        → any (λ e. e.src_table_index == old_place s i) (rows b) ≡ true
        → any (λ e. e.src_table_index == i) (rows (remove_source b s)) ≡ true
    remove_source-used i h =
        ap (any (λ e. e.src_table_index == i)) dropped-rows
        ∙ any-map (correct_row s) (λ e. e.src_table_index == i) (rows b)
        ∙ All-any_ext (Other b s) (λ e. (correct_row s e).src_table_index == i)
            (λ e. e.src_table_index == old_place s i) (rows b) others
            (λ e other.
              old_place_eq s i (correct_row s e).src_table_index
              ∙ ap (λ j. j == old_place s i) (corrected e other).1)
        ∙ h
