-- ===== src/Bind/Remove.antt =====
-- The loop of `zb_apsme_unbind_request` over the destinations keeps the others in their order.
use zboss.Base.{
  or_assoc, or_false, ℕ, zero, suc, ◌+◌, ◌-◌, ◌%◌, ◌≤◌, ◌<◌, ◌≡◌, refl, sym, ap, ap₂, ◌∙◌, arith,
  Bool, true, false, ◌==◌, ◌&&◌, ◌||◌, not, ltb, Bool-cases, [], ◌∷◌, ◌++◌, append-nil,
  append_assoc, any, filter, slice, slice_ext, slice-append, slice-memmove, memmove, inl, inr,
  subst,
}
use native.Mathlib.Decide.{dec_lt}
use zboss.Bind.{
  BindDst, DstAddr, Binding, Removal, addr_eq, remove_body, remove_while, remove_rows,
  dst_table_size,
}

-- The destinations that stay, and those of the source among them.
unfoldable pub stays : ℕ → DstAddr → BindDst → Bool
stays s addr e = not (e.src_table_index == s && addr_eq e.u addr)

abbrev pub of_source : ℕ → BindDst → Bool
of_source s e = e.src_table_index == s

-- What the loop does from a state on.
pub record Removed (s : ℕ) (addr : DstAddr) (r out : Removal) : Type 0 where
  pub left :
      slice out.rows 0 out.n
      ≡ slice r.rows 0 r.d ++ filter (stays s addr) (slice r.rows r.d (r.n - r.d))
  pub seen :
      out.found
      ≡ (r.found || any (of_source s) (filter (stays s addr) (slice r.rows r.d (r.n - r.d))))
  pub fewer : out.n ≤ r.n

not-false : (b : Bool) → not b ≡ false → b ≡ true
not-false true h = refl
not-false false h = cc

not-true : (b : Bool) → not b ≡ true → b ≡ false
not-true true h = cc
not-true false h = refl

module _ (s : ℕ) (addr : DstAddr) where
  at_end : (r : Removal) → r.d ≡ r.n → Removed s addr r r
  unfolding slice
  at_end r end =
      let none_left : r.n - r.d ≡ 0 = omega arith in
      record {
        left =
            ap (slice r.rows 0) (sym end)
            ∙ sym (append-nil (slice r.rows 0 r.d))
            ∙ ap (λ n. slice r.rows 0 r.d ++ filter (stays s addr) (slice r.rows r.d n))
                (sym none_left);
        seen =
            sym (or_false r.found)
            ∙ ap (λ n. r.found || any (of_source s) (filter (stays s addr) (slice r.rows r.d n)))
                (sym none_left);
        fewer = omega arith;
      }

  -- The elements from `d` on: the one at `d` and the rest.
  next_row :
      (r : Removal)
      → r.d < r.n
      → slice r.rows r.d (r.n - r.d) ≡ r.rows r.d ∷ slice r.rows (r.d + 1) (r.n - 1 - r.d)
  unfolding slice
  next_row r more =
      let count : r.n - r.d ≡ suc (r.n - 1 - r.d) = omega arith in ap (slice r.rows r.d) count

  -- The body of the loop on a destination that goes, and on one that stays.
  body_goes :
      (r : Removal)
      → r.d < r.n
      → r.n < 256
      → stays s addr (r.rows r.d) ≡ false
      → remove_body s addr r
        ≡ record r { rows = memmove r.rows r.d (r.d + 1) (r.n - 1 - r.d); n = r.n - 1 }
  unfolding remove_body stays
  body_goes r more small gone =
      let hit : ((r.rows r.d).src_table_index == s && addr_eq (r.rows r.d).u addr) ≡ true =
        not-false _ gone in
      let n : (r.n + 255) % 256 ≡ r.n - 1 = omega arith in
      rw hit (ap (λ n. record r { rows = memmove r.rows r.d (r.d + 1) (n - r.d); n = n }) n)

  body_stays :
      (r : Removal)
      → r.d < r.n
      → r.n < 256
      → stays s addr (r.rows r.d) ≡ true
      → remove_body s addr r ≡ record r { d = r.d + 1; found = r.found || of_source s (r.rows r.d) }
  unfolding remove_body stays
  body_stays r more small stay =
      let miss : ((r.rows r.d).src_table_index == s && addr_eq (r.rows r.d).u addr) ≡ false =
        not-true _ stay in
      let d : (r.d + 1) % 256 ≡ r.d + 1 = omega arith in
      rw miss (ap (λ d. record r { d = d; found = r.found || of_source s (r.rows r.d) }) d)

  gone_row :
      (r out : Removal)
      → r.d < r.n
      → r.n < 256
      → stays s addr (r.rows r.d) ≡ false
      → Removed s addr (remove_body s addr r) out
      → Removed s addr r out
  unfolding memmove
  gone_row r out more small gone rest' =
      let rest = subst (λ x. Removed s addr x out) (body_goes r more small gone) rest' in
      let rows' = memmove r.rows r.d (r.d + 1) (r.n - 1 - r.d) in
      let tail = slice r.rows (r.d + 1) (r.n - 1 - r.d) in
      let same : filter (stays s addr) (slice rows' r.d (r.n - 1 - r.d))
          ≡ filter (stays s addr) (slice r.rows r.d (r.n - r.d)) =
        ap (filter (stays s addr)) (slice-memmove r.rows r.d (r.d + 1) (r.n - 1 - r.d))
        ∙ sym (ap (filter (stays s addr)) (next_row r more) ∙ rw gone refl) in
      let before : slice rows' 0 r.d ≡ slice r.rows 0 r.d =
        slice_ext rows' r.rows 0 0 r.d (λ i h. ground arith) in
      record {
        left = rest.left ∙ ap₂ ◌++◌ before same;
        seen = rest.seen ∙ ap (λ l. r.found || any (of_source s) l) same;
        fewer = omega (arith, rest.fewer);
      }

  kept_row :
      (r out : Removal)
      → r.d < r.n
      → r.n < 256
      → stays s addr (r.rows r.d) ≡ true
      → Removed s addr (remove_body s addr r) out
      → Removed s addr r out
  unfolding slice
  kept_row r out more small stay rest' =
      let rest = subst (λ x. Removed s addr x out) (body_stays r more small stay) rest' in
      let e = r.rows r.d in
      let tail = filter (stays s addr) (slice r.rows (r.d + 1) (r.n - (r.d + 1))) in
      let count : r.n - 1 - r.d ≡ r.n - (r.d + 1) = omega arith in
      let whole : filter (stays s addr) (slice r.rows r.d (r.n - r.d)) ≡ e ∷ tail =
        ap (filter (stays s addr)) (next_row r more)
        ∙ rw stay (ap (λ n. e ∷ filter (stays s addr) (slice r.rows (r.d + 1) n)) count) in
      let first : slice r.rows 0 (r.d + 1) ≡ slice r.rows 0 r.d ++ e ∷ [] =
        slice-append r.rows 0 r.d 1 ∙ ap (λ i. slice r.rows 0 r.d ++ r.rows i ∷ []) (omega arith) in
      record {
        left =
            rest.left
            ∙ ap (λ l. l ++ tail) first
            ∙ append_assoc (slice r.rows 0 r.d) (e ∷ []) tail
            ∙ ap (λ l. slice r.rows 0 r.d ++ l) (sym whole);
        seen =
            rest.seen
            ∙ sym (or_assoc r.found (of_source s e) (any (of_source s) tail))
            ∙ ap (λ l. r.found || any (of_source s) l) (sym whole);
        fewer = rest.fewer;
      }

  pub remove_while-Removed :
      (k : ℕ) (r : Removal)
      → r.d ≤ r.n
      → r.n - r.d ≤ k
      → r.n < 256
      → Removed s addr r (remove_while k s addr r)
  unfolding remove_while
  remove_while-Removed zero r inside fuel small = at_end r (omega arith)
  remove_while-Removed (suc k) r inside fuel small = elim (dec_lt r.d r.n) [
    | no end ↦ let stop : ltb r.d r.n ≡ false = ground arith in rw stop (at_end r (omega arith))
    | yes more ↦
        let go : ltb r.d r.n ≡ true = ground arith in
        elim (Bool-cases (stays s addr (r.rows r.d))) [
          | inl stay ↦
              let body = body_stays r more small stay in
              let next =
                remove_while-Removed k (remove_body s addr r) (rw body (omega arith))
                  (rw body (omega arith)) (rw body small) in
              rw go (kept_row r (remove_while k s addr (remove_body s addr r)) more small stay next)
          | inr gone ↦
              let body = body_goes r more small gone in
              let next =
                remove_while-Removed k (remove_body s addr r) (rw body (omega arith))
                  (rw body (omega arith)) (rw body (omega arith)) in
              rw go (gone_row r (remove_while k s addr (remove_body s addr r)) more small gone next)
        ]
  ]

-- The `do` loop on a table that is not empty.
pub remove_rows-Removed :
    (b : Binding) (s : ℕ) (addr : DstAddr)
    → 0 < b.dst_n_elements
    → b.dst_n_elements ≤ dst_table_size
    → Removed s addr
        (record { rows = b.dst_table; n = b.dst_n_elements; d = 0; found = false })
        (remove_rows b s addr)
unfolding remove_rows remove_while
remove_rows-Removed b s addr some_row fits =
    let start : Removal = record {
      rows = b.dst_table;
      n = b.dst_n_elements;
      d = 0;
      found = false;
    } in
    let go : ltb 0 b.dst_n_elements ≡ true = ground arith in
    let first : remove_while 257 s addr start ≡ remove_while 256 s addr (remove_body s addr start) =
      rw go refl in
    subst (Removed s addr start) first
      (remove_while-Removed s addr 257 start (omega arith) (omega arith) (omega arith))
