-- ===== src/Bind/Unbind.antt =====
-- Removing the bindings of one source to one destination from a valid table.
use zboss.Base.{
  not_both, ℕ, ◌-◌, ◌≤◌, ◌<◌, ◌≡◌, refl, sym, ap, ◌∙◌, subst, arith, Bool, true, false, ◌==◌, ◌&&◌,
  not, Bool-cases, map, All, any, filter, slice, All-filter, All-filter_ext, All-pair, any-All,
  any-filter, filter-map, inl, inr,
}
use native.Mathlib.Decide.{dec_lt}
use zboss.Bind.{
  BindSrc, BindDst, DstAddr, Binding, src_eq, addr_eq, remove_rows, remove_source, remove_binding,
  dst_table_size,
}
use zboss.Bind.Find.{src_eq_sound}
use zboss.Bind.Valid.{rows, resolve, bindings, IsValid}
use zboss.Bind.Remove.{stays, of_source, remove_rows-Removed}
use zboss.Bind.Drop.{
  Other, old_place, dropped_n, dropped-src, remove_source-bindings, remove_source-pointed,
  remove_source-used,
}

-- The bindings that an unbind request for this source and destination leaves.
unfoldable pub unbound : BindSrc → DstAddr → BindSrc × DstAddr → Bool
unbound source addr (x, y) = not (src_eq x source && addr_eq y addr)

old_place-lt : (s i n : ℕ) → s < n → i < n - 1 → old_place s i < n
unfolding old_place
old_place-lt s i n h k = ground arith

old_place_other : (s i : ℕ) → (old_place s i == s) ≡ false
unfolding old_place
old_place_other s i = ground arith

old_place_injective : (s i j : ℕ) → old_place s i ≡ old_place s j → i ≡ j
unfolding old_place
old_place_injective s i j h = ground arith

module _ (b : Binding) (source : BindSrc) (s : ℕ) (addr : DstAddr) (valid : IsValid b)
    (inside : s < b.src_n_elements) (hit : src_eq (b.src_table s) source ≡ true) where
  -- A source in use has a destination.
  some_row : 0 < b.dst_n_elements
  unfolding slice
  some_row = elim (dec_lt 0 b.dst_n_elements) [
    | yes p ↦ p
    | no p ↦
        let empty : b.dst_n_elements ≡ 0 = omega arith in
        absurd (
          not_both
            (sym (valid.used s inside) ∙ ap (λ n. any (of_source s) (slice b.dst_table 0 n)) empty))
  ]

  whole : b.dst_n_elements - 0 ≡ b.dst_n_elements
  whole = omega arith

  -- An index names the source exactly when the entry there is the source.
  same_source :
      (e : BindDst)
      → e.src_table_index < b.src_n_elements
      → (e.src_table_index == s) ≡ src_eq (b.src_table e.src_table_index) source
  same_source e below = elim (Bool-cases (e.src_table_index == s)) [
    | inl same ↦
        let at : e.src_table_index ≡ s = ground arith in
        rw same (sym (ap (λ i. src_eq (b.src_table i) source) at ∙ hit))
    | inr apart ↦ elim (Bool-cases (src_eq (b.src_table e.src_table_index) source)) [
      | inl other ↦
          let clash : e.src_table_index ≡ s =
            valid.distinct e.src_table_index s below inside
              (src_eq_sound _ _ other ∙ sym (src_eq_sound _ _ hit)) in
          absurd (ground arith)
      | inr differs ↦ rw (apart, differs) refl
    ]
  ]

  -- The table when the loop over the destinations has ended.
  abbrev middle : Binding
  middle = record b {
    dst_table = (remove_rows b s addr).rows;
    dst_n_elements = (remove_rows b s addr).n;
  }

  middle-rows : rows middle ≡ filter (stays s addr) (rows b)
  unfolding slice
  middle-rows =
      (remove_rows-Removed b s addr some_row valid.dst_fits).left
      ∙ ap (λ n. filter (stays s addr) (slice b.dst_table 0 n)) whole

  middle-bindings : bindings middle ≡ filter (unbound source addr) (bindings b)
  unfolding bindings stays unbound
  middle-bindings =
      ap (map (resolve b.src_table)) middle-rows
      ∙ ap (map (resolve b.src_table)) (
          All-filter_ext (λ e. e.src_table_index < b.src_n_elements) (stays s addr)
            (λ e. unbound source addr (resolve b.src_table e)) (rows b) valid.pointed
            (λ e below. ap (λ t. not (t && addr_eq e.u addr)) (same_source e below)))
      ∙ sym (filter-map (resolve b.src_table) (unbound source addr) (rows b))

  middle_pointed : All (λ e. e.src_table_index < b.src_n_elements) (rows middle)
  middle_pointed =
      subst (All (λ e. e.src_table_index < b.src_n_elements)) (sym middle-rows) (
        All-filter (λ e. e.src_table_index < b.src_n_elements) (stays s addr) (rows b)
          valid.pointed)

  -- The other sources keep their destinations.
  middle_used :
      (i : ℕ)
      → i < b.src_n_elements
      → (i == s) ≡ false
      → any (λ e. e.src_table_index == i) (rows middle) ≡ true
  unfolding stays
  middle_used i below other =
      ap (any (λ e. e.src_table_index == i)) middle-rows
      ∙ any-filter (λ e. e.src_table_index == i) (stays s addr) (rows b) (λ e gone. ground arith)
      ∙ valid.used i below

  middle_found : (remove_rows b s addr).found ≡ any (of_source s) (rows middle)
  middle_found =
      (remove_rows-Removed b s addr some_row valid.dst_fits).seen
      ∙ ap (λ n. any (of_source s) (filter (stays s addr) (slice b.dst_table 0 n))) whole
      ∙ ap (any (of_source s)) (sym middle-rows)

  middle_small : middle.dst_n_elements ≤ dst_table_size
  middle_small =
      omega (arith, (remove_rows-Removed b s addr some_row valid.dst_fits).fewer, valid.dst_fits)

  -- The source keeps a destination.
  middle-IsValid : (remove_rows b s addr).found ≡ true → IsValid middle
  middle-IsValid found = record {
    src_fits = valid.src_fits;
    dst_fits = middle_small;
    pointed = middle_pointed;
    used = λ i below. elim (Bool-cases (i == s)) [
      | inl same ↦
          let at : i ≡ s = ground arith in
          ap (λ j. any (of_source j) (rows middle)) at ∙ sym middle_found ∙ found
      | inr apart ↦ middle_used i below apart
    ];
    distinct = valid.distinct;
  }

  -- The source has none left and goes as well.
  module _ (gone : (remove_rows b s addr).found ≡ false) where
    middle-Other : All (Other middle s) (rows middle)
    middle-Other =
        All-pair (λ e. e.src_table_index < b.src_n_elements) (λ e. (e.src_table_index == s) ≡ false)
          (rows middle) middle_pointed
          (any-All (of_source s) (rows middle) (sym middle_found ∙ gone))

    dropped-IsValid : IsValid (remove_source middle s)
    dropped-IsValid =
        let (src_n, dst_n) = dropped_n middle s inside valid.src_fits middle_small in
        record {
          src_fits = omega (arith, src_n, valid.src_fits);
          dst_fits = omega (arith, dst_n, middle_small);
          pointed = remove_source-pointed middle s inside valid.src_fits middle_small middle-Other;
          used = λ i h.
              remove_source-used middle s inside valid.src_fits middle_small middle-Other i (
                middle_used (old_place s i)
                  (old_place-lt s i b.src_n_elements inside (omega (arith, src_n)))
                  (old_place_other s i));
          distinct = λ i j h k e.
              let at_i =
                dropped-src middle s inside valid.src_fits middle_small i (omega (arith, src_n)) in
              let at_j =
                dropped-src middle s inside valid.src_fits middle_small j (omega (arith, src_n)) in
              old_place_injective s i j (
                valid.distinct (old_place s i) (old_place s j)
                  (old_place-lt s i b.src_n_elements inside (omega (arith, src_n)))
                  (old_place-lt s j b.src_n_elements inside (omega (arith, src_n)))
                  (sym at_i ∙ e ∙ at_j));
        }

  pub remove_binding-bindings :
      IsValid (remove_binding b s addr)
      × (bindings (remove_binding b s addr) ≡ filter (unbound source addr) (bindings b))
  unfolding remove_binding
  remove_binding-bindings = elim (Bool-cases (remove_rows b s addr).found) [
    | inl found ↦ rw found (middle-IsValid found, middle-bindings)
    | inr gone ↦ rw gone (
      dropped-IsValid gone,
      remove_source-bindings middle s inside valid.src_fits middle_small (middle-Other gone)
          ∙ middle-bindings,
    )
  ]
