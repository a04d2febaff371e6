-- ===== src/Shorts/Delete/Undo.antt =====
-- `del_short_sorted` of common/zb_address.c on a table in order, and behind `add_short_sorted`.
use zboss.Base.{
  ℕ, ◌+◌, ◌-◌, ◌≤◌, ◌<◌, ◌≡◌, ◌≢◌, ap, ◌∙◌, arith, true, false, ◌==◌, ltb, leb, ◌&&◌, if◌then◌else◌,
  Bool-cases, inl, inr,
}
use zboss.Shorts.{Shorts, addr_at, add_place, add_short_sorted}
use zboss.Shorts.Order.{Sorted}
use zboss.Shorts.Add.{add_short_sorted-elements}
use zboss.Shorts.Delete.{OnlyAt, without, del_short_sorted, del_short_sorted-elements}

module _ (s : Shorts) (ref p : ℕ) (only : OnlyAt s.short_sorted s.n_sorted_elements ref p) where
  value :
      (i : ℕ)
      → i < (del_short_sorted s ref).n_sorted_elements
      → addr_at (del_short_sorted s ref) i ≡ s.addr (without s.short_sorted p i)
  unfolding del_short_sorted
  value i inside = ap s.addr ((del_short_sorted-elements s ref p only).1 i inside)

  fewer : (del_short_sorted s ref).n_sorted_elements ≤ s.n_sorted_elements - 1
  fewer = let count = (del_short_sorted-elements s ref p only).0 in rw count (ground arith)

  -- A table in the order of its addresses that has the reference at one place stays in order.
  pub del_short_sorted-Sorted : Sorted s → Sorted (del_short_sorted s ref)
  del_short_sorted-Sorted sorted i j ord inside =
      let few = fewer in
      rw (value i (omega arith), value j inside)
        (sorted (if ltb i p then i else i + 1) (if ltb j p then j else j + 1) (ground arith)
          (ground arith))

added_once :
    (s : Shorts) (ref short_addr : ℕ)
    → Sorted s
    → ((j : ℕ) → j < s.n_sorted_elements → s.short_sorted j ≢ ref)
    → OnlyAt
        (add_short_sorted s ref short_addr).short_sorted
        (s.n_sorted_elements + 1)
        ref
        (add_place s short_addr)
added_once s ref short_addr sorted absent =
    let (inside, _, _) = add_short_sorted-elements s ref short_addr 0 sorted in
    let at : (i : ℕ) → _ = λ i. (add_short_sorted-elements s ref short_addr i sorted).2 in
    record {
      inside = omega arith;
      here = at (add_place s short_addr) ∙ ground arith;
      apart = λ j below other e. ground (arith, at j, absent j, absent (j - 1));
    }

left :
    (s : Shorts) (ref short_addr i : ℕ)
    → Sorted s
    → i < s.n_sorted_elements
    → without (add_short_sorted s ref short_addr).short_sorted (add_place s short_addr) i
      ≡ s.short_sorted i
left s ref short_addr i sorted below = elim (Bool-cases (ltb i (add_place s short_addr))) [
  | inl before ↦
      rw (before, without) ((add_short_sorted-elements s ref short_addr i sorted).2 ∙ ground arith)
  | inr behind ↦
      let back : i + 1 - 1 ≡ i = omega arith in
      let inner : (ltb (add_place s short_addr) (i + 1) && leb (i + 1) s.n_sorted_elements) ≡ true =
        ground arith in
      let other : (i + 1 == add_place s short_addr) ≡ false = ground arith in
      rw (behind, without)
        ((add_short_sorted-elements s ref short_addr (i + 1) sorted).2
          ∙ rw (other, inner) (ap s.short_sorted back))
]

-- On a table in the order of its addresses that does not have the reference, neither among its
-- elements nor in the second unused place behind them, `del_short_sorted` undoes
-- `add_short_sorted`: as many elements, in the same order.
pub del_short_sorted-add_short_sorted :
    (s : Shorts) (ref short_addr : ℕ)
    → Sorted s
    → ((j : ℕ) → j < s.n_sorted_elements → s.short_sorted j ≢ ref)
    → s.short_sorted (s.n_sorted_elements + 1) ≢ ref
    → let s' = del_short_sorted (add_short_sorted s ref short_addr) ref in
      (s'.n_sorted_elements ≡ s.n_sorted_elements)
      × ((i : ℕ) → i < s.n_sorted_elements → s'.short_sorted i ≡ s.short_sorted i)
del_short_sorted-add_short_sorted s ref short_addr sorted absent clean =
    let n = s.n_sorted_elements in
    let a = add_short_sorted s ref short_addr in
    let (inside, size, beyond) = add_short_sorted-elements s ref short_addr (n + 1) sorted in
    let once : OnlyAt a.short_sorted a.n_sorted_elements ref (add_place s short_addr) =
      rw size (added_once s ref short_addr sorted absent) in
    let (count, kept) = del_short_sorted-elements a ref (add_place s short_addr) once in
    let same : a.short_sorted (n + 1) ≡ s.short_sorted (n + 1) = beyond ∙ ground arith in
    let whole : (del_short_sorted a ref).n_sorted_elements ≡ n =
      rw (count, size) (ground (arith, same, clean)) in
    (whole, λ i below. kept i (rw whole below) ∙ left s ref short_addr i sorted below)
