-- ===== src/Slots/Find.antt =====
-- NWK_ARRAY_FIND_ENT finds the first entry that passes, and finds it again after its fields are set.
use zboss.Base.{
  ℕ, zero, suc, ◌+◌, ◌<◌, ◌≤◌, ◌≡◌, sym, ap, ◌∙◌, arith, Bool, true, false, ◌&&◌, Bool-cases, inl,
  inr, update, update_self, update_ne, none, some,
}
use native.Mathlib.Decide.{dec_lt}
use zboss.Slots.{Slot, Slots, find_loop, is_match, array_find_ent, take_ent, set_ent}

module _ {A : Type 0} (test : Slot A → Bool) where
  find_loop_at :
      (k : ℕ) (array : ℕ → Slot A) (i r : ℕ)
      → i ≤ r
      → r < i + k
      → test (array r) ≡ true
      → ((j : ℕ) → i ≤ j → j < r → test (array j) ≡ false)
      → find_loop test k array i ≡ some r
  unfolding find_loop
  find_loop_at zero array i r low high hit before = absurd (omega arith)
  find_loop_at (suc k) array i r low high hit before = elim (dec_lt i r) [
    | yes later ↦ rw (before i (omega arith) later) (
        find_loop_at k array (i + 1) r (omega arith) (omega arith) hit
          (λ j a b. before j (omega arith) b))
    | no here ↦
        let same : r ≡ i = omega arith in
        let now : test (array i) ≡ true = ap (λ n. test (array n)) (sym same) ∙ hit in
        rw now (ap some (sym same))
  ]

  find_loop-before :
      (k : ℕ) (array : ℕ → Slot A) (i r : ℕ)
      → find_loop test k array i ≡ some r
      → (j : ℕ) → i ≤ j
      → j < r
      → test (array j) ≡ false
  unfolding find_loop
  find_loop-before zero array i r e j low high = absurd (ground arith)
  find_loop-before (suc k) array i r e j low high = elim (Bool-cases (test (array i))) [
    | inl hit ↦ let at : i ≡ r = ground arith in absurd (omega arith)
    | inr miss ↦ elim (dec_lt i j) [
      | yes later ↦ find_loop-before k array (i + 1) r (rw miss at e) j (omega arith) high
      | no here ↦ let same : j ≡ i = omega arith in ap (λ n. test (array n)) same ∙ miss
    ]
  ]

  find_loop-none :
      (k : ℕ) (array : ℕ → Slot A) (i : ℕ)
      → find_loop test k array i ≡ none
      → (j : ℕ) → i ≤ j
      → j < i + k
      → test (array j) ≡ false
  unfolding find_loop
  find_loop-none zero array i e j low high = absurd (omega arith)
  find_loop-none (suc k) array i e j low high = elim (Bool-cases (test (array i))) [
    | inl hit ↦ absurd (ground arith)
    | inr miss ↦ elim (dec_lt i j) [
      | yes later ↦ find_loop-none k array (i + 1) (rw miss at e) j (omega arith) (omega arith)
      | no here ↦ let same : j ≡ i = omega arith in ap (λ n. test (array n)) same ∙ miss
    ]
  ]

module _ {A : Type 0} (n : ℕ) (condition : A → Bool) (t : Slots A) where
  -- Some entry passes, so one is found.
  pub array_find_ent-none :
      array_find_ent n condition t ≡ none → (i : ℕ) → i < n → is_match condition (t.array i) ≡ false
  unfolding array_find_ent
  array_find_ent-none e i below =
      find_loop-none (is_match condition) n t.array 0 e i (omega arith) (omega arith)

  module _ (i : ℕ) (v : A) (below : i < n) (passes : condition v ≡ true) where
    -- The entry that was found, with other fields that pass.
    pub found_again :
        array_find_ent n condition t ≡ some i
        → (t.array i).used ≡ true
        → array_find_ent n condition (set_ent t i v) ≡ some i
    unfolding array_find_ent set_ent is_match
    found_again at used =
        find_loop_at (is_match condition) n _ 0 i (omega arith) (omega arith)
          (ap (is_match condition) (update_self t.array i (record (t.array i) { ent = v }))
            ∙ ap (λ u. u && condition v) used
            ∙ passes)
          (λ j low high.
            ap (is_match condition) (update_ne t.array i j _ (λ same. omega arith))
            ∙ find_loop-before (is_match condition) n t.array 0 i at j low high)

    -- A new entry with fields that pass, where none was found.
    pub new_found :
        array_find_ent n condition t ≡ none
        → array_find_ent n condition (set_ent (take_ent t i) i v) ≡ some i
    unfolding array_find_ent set_ent take_ent is_match
    new_found nothing =
        let slot : Slot A = record (t.array i) { used = true } in
        let taken = update t.array i slot in
        find_loop_at (is_match condition) n _ 0 i (omega arith) (omega arith)
          (ap (is_match condition) (update_self taken i (record (taken i) { ent = v }))
            ∙ ap (λ x. x.used && condition v) (update_self t.array i slot)
            ∙ passes)
          (λ j low high.
            ap (is_match condition) (update_ne taken i j _ (λ same. omega arith))
            ∙ ap (is_match condition) (update_ne t.array i j slot (λ same. omega arith))
            ∙ find_loop-none (is_match condition) n t.array 0 nothing j low (omega arith))
