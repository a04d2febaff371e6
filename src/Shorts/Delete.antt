-- ===== src/Shorts/Delete.antt =====
-- `del_short_sorted` of common/zb_address.c, which scans the sorted table for a reference.
pub mod Undo
use zboss.Base.{
  ℕ, zero, suc, ◌+◌, ◌-◌, ◌≤◌, ◌<◌, ◌≡◌, ◌≢◌, refl, sym, ap, ◌∙◌, arith, Bool, true, false, ◌==◌,
  ltb, leb, ◌&&◌, if◌then◌else◌, Bool-cases, inl, inr, memmove,
}
use native.Mathlib.Decide.{dec_lt}
use zboss.Shorts.{Shorts, addr_at, add_place, add_short_sorted}
use zboss.Shorts.Order.{Sorted}
use zboss.Shorts.Add.{add_short_sorted-elements}

-- What the scan does to the array at place `i`, of `n` elements, when it holds the reference.
unfoldable pub close_gap : ℕ → ℕ → (ℕ → ℕ) → ℕ → ℕ
close_gap i n array = if i == n - 1 then array else memmove array i (i + 1) (n - i)

-- The scan, with the rounds left: the array and the number of elements that it dropped.
unfoldable pub del_loop : ℕ → ℕ → ℕ → ℕ → (ℕ → ℕ) → ℕ → (ℕ → ℕ) × ℕ
del_loop zero i n ref array dec = (array, dec)
del_loop (suc k) i n ref array dec =
    let here = array i == ref in
    del_loop k (i + 1) n ref (if here then close_gap i n array else array)
      (if here then dec + 1 else dec)

-- `del_short_sorted`
unfoldable pub del_short_sorted : Shorts → ℕ → Shorts
del_short_sorted s ref =
    let n = s.n_sorted_elements in
    let (array, dec) = del_loop n 0 n ref s.short_sorted 0 in
    record s { short_sorted = array; n_sorted_elements = n - dec }

-- One place, with the reference in it.
del_loop-hit :
    (r i n ref : ℕ) (array : ℕ → ℕ) (dec : ℕ)
    → array i ≡ ref
    → del_loop (suc r) i n ref array dec ≡ del_loop r (i + 1) n ref (close_gap i n array) (dec + 1)
unfolding del_loop
del_loop-hit r i n ref array dec here =
    let hit : (array i == ref) ≡ true = ground arith in rw hit refl

-- One place, without it.
del_loop-miss :
    (r i n ref : ℕ) (array : ℕ → ℕ) (dec : ℕ)
    → array i ≢ ref
    → del_loop (suc r) i n ref array dec ≡ del_loop r (i + 1) n ref array dec
unfolding del_loop
del_loop-miss r i n ref array dec other =
    let miss : (array i == ref) ≡ false = ground arith in rw miss refl

-- Past places without the reference the scan changes nothing.
del_loop-skip :
    (k r i n ref : ℕ) (array : ℕ → ℕ) (dec : ℕ)
    → ((j : ℕ) → i ≤ j → j < i + k → array j ≢ ref)
    → del_loop (k + r) i n ref array dec ≡ del_loop r (i + k) n ref array dec
del_loop-skip zero r i n ref array dec none =
    let same : 0 + r ≡ r = omega arith in
    let start : i ≡ i + 0 = omega arith in
    ap (λ m. del_loop m i n ref array dec) same ∙ ap (λ m. del_loop r m n ref array dec) start
del_loop-skip (suc k) r i n ref array dec none =
    let next : suc k + r ≡ suc (k + r) = omega arith in
    let to : i + 1 + k ≡ i + suc k = omega arith in
    ap (λ m. del_loop m i n ref array dec) next
    ∙ del_loop-miss (k + r) i n ref array dec (none i (omega arith) (omega arith))
    ∙ del_loop-skip k r (i + 1) n ref array dec (λ j low high. none j (omega arith) (omega arith))
    ∙ ap (λ m. del_loop r m n ref array dec) to

-- The last place.
del_loop-end :
    (i n ref : ℕ) (array : ℕ → ℕ) (dec : ℕ)
    → i ≡ n - 1
    → del_loop 1 i n ref array dec ≡ (array, if array i == ref then dec + 1 else dec)
unfolding del_loop close_gap
del_loop-end i n ref array dec last =
    let end : (i == n - 1) ≡ true = ground arith in
    elim (Bool-cases (array i == ref)) [ inl hit ↦ rw (hit, end) refl | inr miss ↦ rw miss refl ]

-- The reference stands at `p` and at no other place of the first `n`.
pub record OnlyAt (array : ℕ → ℕ) (n ref p : ℕ) : Type 0 where
  pub inside : p < n
  pub here : array p ≡ ref
  pub apart : (j : ℕ) → j < n → j ≢ p → array j ≢ ref

-- What is left when `p` is taken out of the first places.
abbrev pub without : (ℕ → ℕ) → ℕ → ℕ → ℕ
without array p i = array (if ltb i p then i else i + 1)

close_gap-without :
    (array : ℕ → ℕ) (p n i : ℕ) → p < n → i < n - 1 → close_gap p n array i ≡ without array p i
unfolding close_gap memmove
close_gap-without array p n i inside below = elim (Bool-cases (p == n - 1)) [
  | inl last ↦ rw last (ground arith)
  | inr inner ↦ elim (Bool-cases (ltb i p)) [
    | inl before ↦
        let still : (leb p i && ltb i (p + (n - p))) ≡ false = ground arith in
        rw (inner, before, still) refl
    | inr behind ↦
        let moved : (leb p i && ltb i (p + (n - p))) ≡ true = ground arith in
        let from : p ≤ i = ground arith in rw (inner, behind, moved) (ap array (omega arith))
  ]
]

close_gap-last : (array : ℕ → ℕ) (p n : ℕ) → p < n - 1 → close_gap p n array (n - 1) ≡ array n
unfolding close_gap memmove
close_gap-last array p n inner =
    let no_end : (p == n - 1) ≡ false = ground arith in
    let moved : (leb p (n - 1) && ltb (n - 1) (p + (n - p))) ≡ true = ground arith in
    rw (no_end, moved) (ap array (omega arith))

module _ (array : ℕ → ℕ) (n ref p : ℕ) (only : OnlyAt array n ref p) where
  to_place : del_loop n 0 n ref array 0 ≡ del_loop (n - 1 - p) (p + 1) n ref (close_gap p n array) 1
  to_place =
      let inside = only.inside in
      let parts : n ≡ p + suc (n - 1 - p) = omega arith in
      let from : 0 + p ≡ p = omega arith in
      ap (λ m. del_loop m 0 n ref array 0) parts
      ∙ del_loop-skip p (suc (n - 1 - p)) 0 n ref array 0
          (λ j low high. only.apart j (omega arith) (λ e. omega arith))
      ∙ ap (λ m. del_loop (suc (n - 1 - p)) m n ref array 0) from
      ∙ del_loop-hit (n - 1 - p) p n ref array 0 only.here

  -- Behind the gap the scan meets, at the last place, what stood behind the table.
  behind_gap :
      p < n - 1
      → del_loop (n - 1 - p) (p + 1) n ref (close_gap p n array) 1
        ≡ (close_gap p n array, if array n == ref then 2 else 1)
  behind_gap inner =
      let closed = close_gap p n array in
      let inside = only.inside in
      let rounds : n - 1 - p ≡ n - 2 - p + 1 = omega arith in
      let to : p + 1 + (n - 2 - p) ≡ n - 1 = omega arith in
      ap (λ m. del_loop m (p + 1) n ref closed 1) rounds
      ∙ del_loop-skip (n - 2 - p) 1 (p + 1) n ref closed 1 (λ j low high e.
        only.apart (j + 1) (omega arith) (λ r. omega arith)
          (sym (close_gap-without array p n j inside (omega arith) ∙ ground arith) ∙ e))
      ∙ ap (λ m. del_loop 1 m n ref closed 1) to
      ∙ del_loop-end (n - 1) n ref closed 1 refl
      ∙ ap (λ v. (closed, if v == ref then 2 else 1)) (close_gap-last array p n inner)

  del_loop-OnlyAt :
      del_loop n 0 n ref array 0
      ≡ (close_gap p n array, if ltb p (n - 1) && array n == ref then 2 else 1)
  unfolding del_loop
  del_loop-OnlyAt = elim (Bool-cases (ltb p (n - 1))) [
    | inl inner ↦ rw inner (to_place ∙ behind_gap (ground arith))
    | inr last ↦
        let inside = only.inside in
        let none : n - 1 - p ≡ 0 = ground arith in
        rw last (to_place ∙ ap (λ m. del_loop m (p + 1) n ref (close_gap p n array) 1) none)
  ]

-- When a reference stands at exactly one place `p` of the sorted table, `del_short_sorted` takes out
-- that place and leaves the order of the others, but it drops one element more, the last one, when
-- `p` is not the last place and the reference also stands in the unused place right behind the table.
pub del_short_sorted-elements :
    (s : Shorts) (ref p : ℕ)
    → OnlyAt s.short_sorted s.n_sorted_elements ref p
    → let n = s.n_sorted_elements in
      let s' = del_short_sorted s ref in
      (s'.n_sorted_elements ≡ n - (if ltb p (n - 1) && s.short_sorted n == ref then 2 else 1))
      × ((i : ℕ) → i < s'.n_sorted_elements → s'.short_sorted i ≡ without s.short_sorted p i)
unfolding del_short_sorted
del_short_sorted-elements s ref p only =
    let n = s.n_sorted_elements in
    let stale = ltb p (n - 1) && s.short_sorted n == ref in
    rw (del_loop-OnlyAt s.short_sorted n ref p only)
      (refl, λ i h. close_gap-without s.short_sorted p n i only.inside (at_least_one stale n i h))
  where
    at_least_one : (b : Bool) (n i : ℕ) → i < n - (if b then 2 else 1) → i < n - 1
    at_least_one b n i h = ground arith
