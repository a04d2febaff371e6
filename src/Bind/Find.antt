-- ===== src/Bind/Find.antt =====
-- What `aps_find_src_ref` finds among the sources.
use zboss.Base.{
  ℕ, zero, suc, ◌+◌, ◌≤◌, ◌<◌, ◌≡◌, refl, ap, ◌∙◌, arith, true, false, ltb, if◌then◌else◌,
  Bool-cases, ◌⊎◌, inl, inr,
}
use native.Mathlib.Decide.{dec_lt}
use zboss.Bind.{BindSrc, Binding, src_eq, find_loop, find_src_ref}

pub src_eq_sound : (e f : BindSrc) → src_eq e f ≡ true → e ≡ f
unfolding src_eq
src_eq_sound e f h =
    let addr : e.src_addr ≡ f.src_addr = ground arith in
    let end : e.src_end ≡ f.src_end = ground arith in
    let cluster : e.cluster_id ≡ f.cluster_id = ground arith in
    λ i. record { src_addr = addr i; src_end = end i; cluster_id = cluster i }

pub src_eq_refl : (e : BindSrc) → src_eq e e ≡ true
unfolding src_eq
src_eq_refl e = ground arith

-- The first entry from `l` on, or none.
abbrev pub Found : Binding → BindSrc → ℕ → ℕ → Type 0
Found b source l r =
    ((r < b.src_n_elements) × (src_eq (b.src_table r) source ≡ true))
    ⊎ ((r ≡ 255) × ((i : ℕ) → l ≤ i → i < b.src_n_elements → src_eq (b.src_table i) source ≡ false))

find_loop-Found :
    (k : ℕ) (b : Binding) (source : BindSrc) (l : ℕ)
    → l < b.src_n_elements
    → b.src_n_elements ≤ k + l
    → Found b source l (find_loop k b source l)
unfolding find_loop
find_loop-Found zero b source l inside fuel = absurd (omega arith)
find_loop-Found (suc k) b source l inside fuel = elim (Bool-cases (src_eq (b.src_table l) source)) [
  | inl hit ↦ rw hit (inl (inside, hit))
  | inr miss ↦ elim (dec_lt (l + 1) b.src_n_elements) [
    | yes more ↦
        let go : ltb (l + 1) b.src_n_elements ≡ true = ground arith in
        rw (miss, go)
          (elim (find_loop-Found k b source (l + 1) more (omega arith)) [
            | inl found ↦ inl found
            | inr (r, none_after) ↦ inr (
              r,
              λ i from below. elim (dec_lt l i) [
                | yes later ↦ none_after i (omega arith) below
                | no now ↦
                    let at : i ≡ l = omega arith in
                    ap (λ j. src_eq (b.src_table j) source) at ∙ miss
              ],
            )
          ])
    | no end ↦
        let stop : ltb (l + 1) b.src_n_elements ≡ false = ground arith in
        rw (miss, stop)
          (inr (
            refl,
            λ i from below.
                let at : i ≡ l = omega arith in ap (λ j. src_eq (b.src_table j) source) at ∙ miss,
          ))
  ]
]

pub find_src_ref-Found :
    (b : Binding) (source : BindSrc)
    → 0 < b.src_n_elements
    → Found b source 0 (find_src_ref b source)
unfolding find_src_ref
find_src_ref-Found b source some_source =
    find_loop-Found (b.src_n_elements + 1) b source 0 some_source (omega arith)

-- Without sources the loop still compares the first place of the table.
pub find_src_ref_empty :
    (b : Binding) (source : BindSrc)
    → b.src_n_elements ≡ 0
    → find_src_ref b source ≡ (if src_eq (b.src_table 0) source then 0 else 255)
unfolding find_src_ref find_loop
find_src_ref_empty b source empty =
    let one : b.src_n_elements + 1 ≡ 1 = omega arith in
    let end : ltb (0 + 1) b.src_n_elements ≡ false = ground arith in
    ap (λ k. find_loop k b source 0) one ∙ rw end refl
