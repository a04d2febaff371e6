-- ===== src/Bind/Add.antt =====
-- `zb_apsme_bind_request` on a valid table adds one binding.
use zboss.Base.{
  slice-update, not_both, ℕ, ◌+◌, ◌%◌, ◌≤◌, ◌<◌, ◌≡◌, refl, sym, ap, ap₂, ◌∙◌, arith, Bool, true,
  false, ◌==◌, ◌||◌, Bool-cases, List, [], ◌∷◌, ◌++◌, map, All, any, subst, slice, ◌⊎◌, inl, inr,
  update, update_self, update_ne, any-append, All-append, All-map_ext, All-mono,
}
use native.Mathlib.Decide.{dec_lt}
use zboss.Bind.{
  BindSrc, BindDst, DstAddr, Binding, src_eq, add_binding, src_table_size, dst_table_size,
}
use zboss.Bind.Find.{src_eq_sound, src_eq_refl}
use zboss.Bind.Valid.{rows, resolve, bindings, IsValid}

map-append {ℓ κ} :
    {A : Type ℓ} {B : Type κ} (f : A → B) (xs ys : List A) → map f (xs ++ ys) ≡ map f xs ++ map f ys
map-append f [] ys = refl
map-append f (x ∷ xs) ys = ap (λ l. f x ∷ l) (map-append f xs ys)

-- The table after one more binding, when the source has the place `s`.
module _ (b : Binding) (source : BindSrc) (s : ℕ) (addr : DstAddr) (valid : IsValid b)
    (room : b.dst_n_elements < dst_table_size) where
  abbrev added : Binding
  added = add_binding b source s addr

  abbrev row : BindDst
  row = record { u = addr; src_table_index = s }

  added-rows : rows added ≡ rows b ++ row ∷ []
  unfolding add_binding
  added-rows = elim (Bool-cases (s == b.src_n_elements)) [
    | inl new ↦ rw new (added_slice valid.dst_fits)
    | inr old ↦ rw old (added_slice valid.dst_fits)
  ]
    where
      added_slice :
          b.dst_n_elements ≤ dst_table_size
          → slice (update b.dst_table b.dst_n_elements row) 0 ((b.dst_n_elements + 1) % 256)
            ≡ rows b ++ row ∷ []
      added_slice h =
          let next : (b.dst_n_elements + 1) % 256 ≡ b.dst_n_elements + 1 = omega arith in
          ap (slice (update b.dst_table b.dst_n_elements row) 0) next
          ∙ slice-update b.dst_table b.dst_n_elements row

  -- What both cases of the source need.
  added-bindings :
      added.src_table s ≡ source
      → ((i : ℕ) → i < b.src_n_elements → added.src_table i ≡ b.src_table i)
      → bindings added ≡ bindings b ++ (source, addr) ∷ []
  unfolding bindings
  added-bindings placed kept =
      ap (map (resolve added.src_table)) added-rows
      ∙ map-append (resolve added.src_table) (rows b) (row ∷ [])
      ∙ ap₂ ◌++◌
          (All-map_ext (λ e. e.src_table_index < b.src_n_elements) (resolve added.src_table)
            (resolve b.src_table) (rows b) valid.pointed
            (λ e h. ap (λ x. (x, e.u)) (kept e.src_table_index h)))
          (ap (λ x. (x, addr) ∷ []) placed)

  added_used :
      (i : ℕ)
      → (i < b.src_n_elements) ⊎ (i ≡ s)
      → any (λ e. e.src_table_index == i) (rows added) ≡ true
  added_used i which =
      ap (any (λ e. e.src_table_index == i)) added-rows
      ∙ any-append (λ e. e.src_table_index == i) (rows b) (row ∷ [])
      ∙ elim which [
        | inl below ↦ rw (valid.used i below) refl
        | inr at ↦ let here : (s == i) ≡ true = ground arith in rw here (or_true _)
      ]
    where
      or_true : (c : Bool) → (c || (true || false)) ≡ true
      or_true true = refl
      or_true false = refl

  added-dst_n : added.dst_n_elements ≡ b.dst_n_elements + 1
  unfolding add_binding
  added-dst_n = elim (Bool-cases (s == b.src_n_elements)) [
    | inl new ↦ rw new (omega (arith, valid.dst_fits))
    | inr old ↦ rw old (omega (arith, valid.dst_fits))
  ]

  added_pointed :
      b.src_n_elements ≤ added.src_n_elements
      → s < added.src_n_elements
      → All (λ e. e.src_table_index < added.src_n_elements) (rows added)
  added_pointed more inside =
      subst (All (λ e. e.src_table_index < added.src_n_elements)) (sym added-rows) (
        All-append (λ e. e.src_table_index < added.src_n_elements) (rows b) (row ∷ [])
          (All-mono (λ e. e.src_table_index < b.src_n_elements)
            (λ e. e.src_table_index < added.src_n_elements) (rows b) (λ e h. omega arith)
            valid.pointed)
          (inside, tt))

  -- The source is there already.
  module _ (inside : s < b.src_n_elements) (hit : src_eq (b.src_table s) source ≡ true) where
    old_fields : (added.src_table ≡ b.src_table) × (added.src_n_elements ≡ b.src_n_elements)
    unfolding add_binding
    old_fields = let old : (s == b.src_n_elements) ≡ false = ground arith in rw old (refl, refl)

    pub old-IsValid : IsValid added × (bindings added ≡ bindings b ++ (source, addr) ∷ [])
    old-IsValid =
        let (same, n) = old_fields in
        (
          record {
            src_fits = omega (arith, n, valid.src_fits);
            dst_fits = omega (arith, added-dst_n);
            pointed = added_pointed (omega (arith, n)) (omega (arith, n));
            used = λ i h. added_used i (inl (omega (arith, n)));
            distinct = λ i j h k e.
                valid.distinct i j (omega (arith, n)) (omega (arith, n))
                  (sym (ap (λ f. f i) same) ∙ e ∙ ap (λ f. f j) same);
          },
          added-bindings (ap (λ f. f s) same ∙ src_eq_sound _ _ hit) (λ i h. ap (λ f. f i) same),
        )

  -- The source is new.
  module _ (end : s ≡ b.src_n_elements) (src_room : s < src_table_size)
      (absent : (i : ℕ) → i < b.src_n_elements → src_eq (b.src_table i) source ≡ false) where
    new_fields :
        (added.src_table ≡ update b.src_table s source)
        × (added.src_n_elements ≡ b.src_n_elements + 1)
    unfolding add_binding
    new_fields =
        let new : (s == b.src_n_elements) ≡ true = ground arith in rw new (refl, omega arith)

    placed : added.src_table s ≡ source
    placed = ap (λ f. f s) new_fields.0 ∙ update_self b.src_table s source

    kept : (i : ℕ) → i < b.src_n_elements → added.src_table i ≡ b.src_table i
    kept i h = ap (λ f. f i) new_fields.0 ∙ update_ne b.src_table s i source (λ e. omega arith)

    other : (i : ℕ) → i < b.src_n_elements → b.src_table i ≡ source → ⊥
    other i h e =
        not_both (sym (src_eq_refl source) ∙ ap (λ x. src_eq x source) (sym e) ∙ absent i h)

    new_distinct :
        (i j : ℕ)
        → i < b.src_n_elements + 1
        → j < b.src_n_elements + 1
        → added.src_table i ≡ added.src_table j
        → i ≡ j
    new_distinct i j h k e = elim (dec_lt i b.src_n_elements) [
      | yes p ↦ elim (dec_lt j b.src_n_elements) [
        | yes q ↦ valid.distinct i j p q (sym (kept i p) ∙ e ∙ kept j q)
        | no q ↦
            let at : j ≡ s = omega arith in
            absurd (other i p (sym (kept i p) ∙ e ∙ ap added.src_table at ∙ placed))
      ]
      | no p ↦
          let at : i ≡ s = omega arith in
          elim (dec_lt j b.src_n_elements) [
            | yes q ↦ absurd (other j q (sym (kept j q) ∙ sym e ∙ ap added.src_table at ∙ placed))
            | no q ↦ omega arith
          ]
    ]

    pub new-IsValid : IsValid added × (bindings added ≡ bindings b ++ (source, addr) ∷ [])
    new-IsValid =
        let (_, n) = new_fields in
        (
          record {
            src_fits = omega (arith, n);
            dst_fits = omega (arith, added-dst_n);
            pointed = added_pointed (omega (arith, n)) (omega (arith, n));
            used = λ i h. added_used i (which i (omega (arith, n)));
            distinct = λ i j h k e. new_distinct i j (omega (arith, n)) (omega (arith, n)) e;
          },
          added-bindings placed kept,
        )
      where
        which : (i : ℕ) → i < b.src_n_elements + 1 → (i < b.src_n_elements) ⊎ (i ≡ s)
        which i h = elim (dec_lt i b.src_n_elements) [ yes p ↦ inl p | no p ↦ inr (omega arith) ]
