-- ===== src/Address/Search.antt =====
-- `ieee_search` of common/zb_address.c sees every entry of the table.
use zboss.Base.{
  ℕ, zero, suc, ◌+◌, ◌-◌, ◌%◌, ◌≤◌, ◌<◌, ◌≡◌, ◌≢◌, refl, sym, ap, ◌∙◌, arith, true, false, ◌==◌,
  Bool-cases, Option-cases, not_both, inl, inr, none, some, some-inj,
}
use native.Mathlib.Decide.{dec_lt}
use zboss.Address.{
  Compressed, Addresses, ieee_addr_table_size, has_ieee, ieee_loop, ieee_search,
  compressed_ieee_hash,
}

pub compressed_ieee_hash-lt : (c : Compressed) → compressed_ieee_hash c < ieee_addr_table_size
unfolding compressed_ieee_hash
compressed_ieee_hash-lt c = omega arith

-- The loop asks nothing else of the table.
ieee_loop-congr :
    (s t : Addresses) (c : Compressed)
    → ((i : ℕ) → has_ieee s c i ≡ has_ieee t c i)
    → (k i : ℕ) → ieee_loop k s c i ≡ ieee_loop k t c i
unfolding ieee_loop
ieee_loop-congr s t c same zero i = refl
ieee_loop-congr s t c same (suc k) i =
    let next = (i + 1) % ieee_addr_table_size in rw (same i, ieee_loop-congr s t c same k next) refl

pub ieee_search-congr :
    (s t : Addresses) (c : Compressed)
    → ((i : ℕ) → has_ieee s c i ≡ has_ieee t c i)
    → ieee_search s c ≡ ieee_search t c
unfolding ieee_search
ieee_search-congr s t c same = ieee_loop-congr s t c same _ _

module _ (s : Addresses) (c : Compressed) where
  ieee_loop-some :
      (k i r : ℕ)
      → i < ieee_addr_table_size
      → ieee_loop k s c i ≡ some r
      → (r < ieee_addr_table_size) × (has_ieee s c r ≡ true)
  unfolding ieee_loop
  ieee_loop-some zero i r inside e = ground arith
  ieee_loop-some (suc k) i r inside e = elim (Bool-cases (has_ieee s c i)) [
    | inl found ↦
        let same : i ≡ r = some-inj (rw found at e) in
        (omega arith, ap (has_ieee s c) (sym same) ∙ found)
    | inr missed ↦
        ieee_loop-some k ((i + 1) % ieee_addr_table_size) r (omega arith) (rw missed at e)
  ]

  ieee_loop-none :
      (h k d : ℕ)
      → ieee_loop k s c ((h + d) % ieee_addr_table_size) ≡ none
      → (e : ℕ) → d ≤ e
      → e < d + k
      → has_ieee s c ((h + e) % ieee_addr_table_size) ≡ false
  unfolding ieee_loop
  ieee_loop-none h zero d gone e from upto = absurd (omega arith)
  ieee_loop-none h (suc k) d gone e from upto =
      let i = (h + d) % ieee_addr_table_size in
      let onward : (i + 1) % ieee_addr_table_size ≡ (h + (d + 1)) % ieee_addr_table_size =
        omega arith in
      elim (Bool-cases (has_ieee s c i)) [
        | inl found ↦ let bad : some i ≡ none = rw found at gone in cc
        | inr missed ↦ elim (dec_lt d e) [
          | no here ↦
              let same : e ≡ d = omega arith in
              ap (λ x. has_ieee s c ((h + x) % ieee_addr_table_size)) same ∙ missed
          | yes later ↦
              ieee_loop-none h k (d + 1) (ap (ieee_loop k s c) (sym onward) ∙ rw missed at gone) e
                (omega arith) (omega arith)
        ]
      ]

  -- What is found is an entry of the table that is in use for the address.
  pub ieee_search-some :
      (r : ℕ) → ieee_search s c ≡ some r → (r < ieee_addr_table_size) × (has_ieee s c r ≡ true)
  unfolding ieee_search
  ieee_search-some r e = ieee_loop-some _ _ r (compressed_ieee_hash-lt c) e

  -- When nothing is found, there is no such entry.
  pub ieee_search-none :
      ieee_search s c ≡ none → (i : ℕ) → i < ieee_addr_table_size → has_ieee s c i ≡ false
  unfolding ieee_search
  ieee_search-none gone i inside =
      let h = compressed_ieee_hash c in
      let bound = compressed_ieee_hash-lt c in
      let start : (h + 0) % ieee_addr_table_size ≡ h = omega arith in
      let place : (h + (i + ieee_addr_table_size - h) % ieee_addr_table_size) % ieee_addr_table_size
          ≡ i =
        omega arith in
      ap (has_ieee s c) (sym place)
      ∙ ieee_loop-none h ieee_addr_table_size 0
          (ap (ieee_loop ieee_addr_table_size s c) start ∙ gone)
          ((i + ieee_addr_table_size - h) % ieee_addr_table_size) (omega arith) (omega arith)

  -- The only entry for the address is found.
  pub ieee_search-only :
      (i : ℕ)
      → i < ieee_addr_table_size
      → has_ieee s c i ≡ true
      → ((j : ℕ) → j < ieee_addr_table_size → j ≢ i → has_ieee s c j ≡ false)
      → ieee_search s c ≡ some i
  ieee_search-only i inside here others = elim (Option-cases (ieee_search s c)) [
    | inl gone ↦ absurd (not_both (sym here ∙ ieee_search-none gone i inside))
    | inr (r, found) ↦
        let (r_inside, r_has) = ieee_search-some r found in
        found
        ∙ ap some (elim (Bool-cases (r == i)) [
          | inl same ↦ ground arith
          | inr other ↦ absurd (not_both (sym r_has ∙ others r r_inside (ground arith)))
        ])
  ]
