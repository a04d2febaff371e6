-- ===== src/Dups/Count.antt =====
-- Counting the entries in use of the address table, and what passing one of them does to a clock.
use zboss.Base.{
  ℕ, zero, suc, ◌+◌, ◌-◌, ◌≤◌, ◌≡◌, refl, sym, ap, ◌∙◌, arith, Bool, true, false, ◌&&◌, leb, ◌==◌,
  if◌then◌else◌, Bool-cases, inl, inr,
}
use native.Mathlib.Decide.{dec_lt}
use zboss.Dups.{Dups, ieee_addr_table_size}

-- How many entries below `i` are in use.
unfoldable pub count_used : (ℕ → Bool) → ℕ → ℕ
count_used used zero = 0
count_used used (suc i) = count_used used i + (if used i then 1 else 0)

-- `n_elements` is the number of entries in use.
abbrev pub IsCounted : Dups → Type 0
IsCounted s = s.n_elements ≡ count_used s.used ieee_addr_table_size

pub count_used-le : (used : ℕ → Bool) (i j : ℕ) → i ≤ j → count_used used i ≤ count_used used j
unfolding count_used
count_used-le used i zero h = rw (the_zero) (omega arith)
  where
    the_zero : i ≡ 0
    the_zero = omega arith
count_used-le used i (suc j) h = elim (dec_lt i (suc j)) [
  | yes p ↦ omega (arith, count_used-le used i j (omega arith))
  | no p ↦ let same : i ≡ suc j = omega arith in rw same (omega arith)
]

pub count_used-suc :
    (used : ℕ → Bool) (i : ℕ) → used i ≡ true → count_used used (i + 1) ≡ count_used used i + 1
unfolding count_used
count_used-suc used i h =
    let next : i + 1 ≡ suc i = omega arith in ap (count_used used) next ∙ rw h refl

pub count_used-skip :
    (used : ℕ → Bool) (i : ℕ) → used i ≡ false → count_used used (i + 1) ≡ count_used used i
unfolding count_used
count_used-skip used i h =
    let next : i + 1 ≡ suc i = omega arith in ap (count_used used) next ∙ rw h (omega arith)

-- Passing an entry that is not in use, and one that is.
pub clock_skipped :
    (used : ℕ → Bool) (i j c : ℕ)
    → used i ≡ false
    → (if used j && leb (i + 1) j then c - 1 else c) ≡ (if used j && leb i j then c - 1 else c)
clock_skipped used i j c h = elim (Bool-cases (j == i)) [
  | inl same ↦
      let at : j ≡ i = ground arith in let off : used j ≡ false = ap used at ∙ h in rw off refl
  | inr apart ↦ let alike : leb (i + 1) j ≡ leb i j = ground arith in rw alike refl
]

pub clock_seen :
    (used : ℕ → Bool) (i j : ℕ) (clock : ℕ → ℕ) (c : ℕ)
    → used i ≡ true
    → c ≡ (if j == i then clock i - 1 else clock j)
    → (if used j && leb (i + 1) j then c - 1 else c)
      ≡ (if used j && leb i j then clock j - 1 else clock j)
clock_seen used i j clock c h e = elim (Bool-cases (j == i)) [
  | inl same ↦
      let at : j ≡ i = ground arith in
      let on : used j ≡ true = ap used at ∙ h in
      let behind : leb (i + 1) j ≡ false = ground arith in
      let reached : leb i j ≡ true = ground arith in
      rw (on, behind, reached) (e ∙ rw same (ap (λ x. clock x - 1) (sym at)))
  | inr apart ↦
      let alike : leb (i + 1) j ≡ leb i j = ground arith in
      let kept : c ≡ clock j = e ∙ rw apart refl in rw (alike, kept) refl
]

pub not_again : (b : Bool) (i c : ℕ) → (if b && leb (i + 1) i then c - 1 else c) ≡ c
not_again false i c = refl
not_again true i c = let behind : leb (i + 1) i ≡ false = ground arith in rw behind refl
