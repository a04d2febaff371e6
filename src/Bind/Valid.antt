-- ===== src/Bind/Valid.antt =====
-- When a binding table stands for a list of bindings, and which.
use zboss.Base.{
  ℕ, ◌≤◌, ◌<◌, ◌≡◌, refl, sym, ap, ◌∙◌, arith, true, false, ◌==◌, List, map, All, any, slice, ◌⊎◌,
  inl, inr, if◌then◌else◌, Bool-cases,
}
use native.Mathlib.Decide.{dec_lt}
use zboss.Bind.{
  BindSrc, BindDst, DstAddr, Binding, src_eq, find_src_ref, source_place, src_table_size,
  dst_table_size,
}
use zboss.Bind.Find.{find_src_ref-Found, find_src_ref_empty}

-- The destinations in use.
abbrev pub rows : Binding → List BindDst
rows b = slice b.dst_table 0 b.dst_n_elements

-- A destination with its source.
abbrev pub resolve : (ℕ → BindSrc) → BindDst → BindSrc × DstAddr
resolve src_table e = (src_table e.src_table_index, e.u)

-- The bindings: each destination with its source, in the order of the table.
unfoldable pub bindings : Binding → List (BindSrc × DstAddr)
bindings b = map (resolve b.src_table) (rows b)

-- The sources differ, each has a destination, and each destination has a source.
pub record IsValid (b : Binding) : Type 0 where
  pub src_fits : b.src_n_elements ≤ src_table_size
  pub dst_fits : b.dst_n_elements ≤ dst_table_size
  pub pointed : All (λ e. e.src_table_index < b.src_n_elements) (rows b)
  pub used : (i : ℕ) → i < b.src_n_elements → any (λ e. e.src_table_index == i) (rows b) ≡ true
  pub distinct :
      (i j : ℕ)
      → i < b.src_n_elements
      → j < b.src_n_elements
      → b.src_table i ≡ b.src_table j
      → i ≡ j

-- Where `zb_apsme_bind_request` finds or puts a source.
abbrev pub Placed : Binding → BindSrc → ℕ → Type 0
Placed b source s =
    ((s < b.src_n_elements) × (src_eq (b.src_table s) source ≡ true))
    ⊎ ((s ≡ b.src_n_elements)
        × ((i : ℕ) → i < b.src_n_elements → src_eq (b.src_table i) source ≡ false))

pub source_place-Placed :
    (b : Binding) (source : BindSrc)
    → b.src_n_elements ≤ src_table_size
    → Placed b source (source_place b source)
unfolding source_place
source_place-Placed b source fits = elim (dec_lt 0 b.src_n_elements) [
  | yes more ↦ elim (find_src_ref-Found b source more) [
    | inl (inside, hit) ↦
        let kept : (find_src_ref b source == 255) ≡ false = ground arith in
        rw kept (inl (inside, hit))
    | inr (r, absent) ↦ rw r (inr (refl, λ i below. absent i (omega arith) below))
  ]
  | no empty ↦
      let zero_n : b.src_n_elements ≡ 0 = omega arith in
      inr (
        ap (λ s. if s == 255 then b.src_n_elements else s) (find_src_ref_empty b source zero_n)
            ∙ elim (Bool-cases (src_eq (b.src_table 0) source)) [
              | inl hit ↦ rw hit (sym zero_n)
              | inr miss ↦ rw miss refl
            ],
        λ i below. absurd (omega arith),
      )
]
