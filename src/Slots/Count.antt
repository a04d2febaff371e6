-- ===== src/Slots/Count.antt =====
-- The counter of an array of nwk/nwk_internal.h is the number of its used entries.
use zboss.Base.{
  ℕ, zero, suc, ◌+◌, ◌<◌, ◌≤◌, ◌≡◌, refl, ap, subst, arith, Bool, true, false, ◌==◌, Bool-cases,
  inl, inr, update, update_ne, update_self, none, some, Option-cases, ◌⊎◌,
}
use zboss.Slots.{
  Slot, Slots, find_loop, is_match, is_free, array_find_ent, take_ent, array_get_ent, free_ent,
  set_ent,
}

unfoldable pub one_if : Bool → ℕ
one_if true = 1
one_if false = 0

module _ {A : Type 0} where
  -- The number of used entries among the first `n`.
  unfoldable pub used_count : (ℕ → Slot A) → ℕ → ℕ
  used_count array zero = 0
  used_count array (suc n) = used_count array n + one_if ((array n).used)

  -- The counter is right.
  abbrev pub IsCounted : ℕ → Slots A → Type 0
  IsCounted n t = t.cnt ≡ used_count t.array n

  used_count-le : (array : ℕ → Slot A) (n : ℕ) → used_count array n ≤ n
  unfolding used_count one_if
  used_count-le array zero = omega arith
  used_count-le array (suc n) = elim (Bool-cases ((array n).used)) [
    | inl u ↦ let h = used_count-le array n in rw u (omega arith)
    | inr u ↦ let h = used_count-le array n in rw u (omega arith)
  ]

  used_count-beyond :
      (array : ℕ → Slot A) (i : ℕ) (v : Slot A) (n : ℕ)
      → n ≤ i
      → used_count (update array i v) n ≡ used_count array n
  unfolding used_count
  used_count-beyond array i v zero h = refl
  used_count-beyond array i v (suc n) h =
      rw (used_count-beyond array i v n (omega arith), update_ne array i n v (λ e. omega arith))
        refl

  -- Replacing an entry.
  used_count-update :
      (array : ℕ → Slot A) (i : ℕ) (v : Slot A) (n : ℕ)
      → i < n
      → used_count (update array i v) n + one_if ((array i).used)
        ≡ used_count array n + one_if v.used
  unfolding used_count
  used_count-update array i v zero h = absurd (omega arith)
  used_count-update array i v (suc n) h = elim (Bool-cases (n == i)) [
    | inl here ↦
        let same : n ≡ i = ground arith in
        let low = used_count-beyond array i v n (omega arith) in
        let old : one_if ((array n).used) ≡ one_if ((array i).used) =
          ap (λ j. one_if ((array j).used)) same in
        rw here (omega arith)
    | inr other ↦
        let below : i < n = ground arith in
        let before = used_count-update array i v n below in rw other (omega arith)
  ]

  find_loop-lt :
      (test : Slot A → Bool) (k : ℕ) (array : ℕ → Slot A) (i r : ℕ)
      → find_loop test k array i ≡ some r
      → (r < i + k) × (test (array r) ≡ true)
  unfolding find_loop
  find_loop-lt test zero array i r e = absurd (ground arith)
  find_loop-lt test (suc k) array i r e = elim (Bool-cases (test (array i))) [
    | inl hit ↦
        let at : i ≡ r = ground arith in (omega arith, subst (λ j. test (array j) ≡ true) at hit)
    | inr miss ↦
        let later = find_loop-lt test k array (i + 1) r (rw miss at e) in
        let low = later.0 in (omega arith, later.1)
  ]

  -- The entry that NWK_ARRAY_FIND_ENT finds.
  pub array_find_ent-some :
      (n : ℕ) (condition : A → Bool) (t : Slots A) (i : ℕ)
      → array_find_ent n condition t ≡ some i
      → (i < n) × ((t.array i).used ≡ true) × (condition ((t.array i).ent) ≡ true)
  unfolding array_find_ent is_match
  array_find_ent-some n condition t i e =
      let found = find_loop-lt (is_match condition) n t.array 0 i e in
      let low = found.0 in let hit = found.1 in (omega arith, ground arith, ground arith)

  is_free-used : (slot : Slot A) → is_free slot ≡ true → slot.used ≡ false
  unfolding is_free
  is_free-used slot e = ground arith

  -- Setting other fields leaves the bit `used`.
  pub set_ent-used :
      (t : Slots A) (i : ℕ) (v : A) (j : ℕ) → ((set_ent t i v).array j).used ≡ (t.array j).used
  unfolding set_ent
  set_ent-used t i v j = elim (Bool-cases (j == i)) [
    | inl here ↦ let same : i ≡ j = ground arith in rw here (ap (λ k. (t.array k).used) same)
    | inr other ↦ rw other refl
  ]

  pub take_ent-used : (t : Slots A) (i : ℕ) → ((take_ent t i).array i).used ≡ true
  unfolding take_ent
  take_ent-used t i = rw (update_self t.array i (record (t.array i) { used = true })) refl

  module _ (n : ℕ) (small : n < 256) (t : Slots A) (c : IsCounted n t) where
    pub set_ent-IsCounted : (i : ℕ) (v : A) → i < n → IsCounted n (set_ent t i v)
    unfolding set_ent
    set_ent-IsCounted i v below =
        let h = used_count-update t.array i (record (t.array i) { ent = v }) n below in omega arith

    pub free_ent-IsCounted : (i : ℕ) → i < n → (t.array i).used ≡ true → IsCounted n (free_ent t i)
    unfolding free_ent one_if
    free_ent-IsCounted i below u =
        let h = used_count-update t.array i (record (t.array i) { used = false }) n below in
        let one : one_if ((t.array i).used) ≡ 1 = rw u refl in
        let most = used_count-le t.array n in grind arith

    pub take_ent-IsCounted : (i : ℕ) → i < n → (t.array i).used ≡ false → IsCounted n (take_ent t i)
    unfolding take_ent one_if
    take_ent-IsCounted i below u =
        let h = used_count-update t.array i (record (t.array i) { used = true }) n below in
        let nothing : one_if ((t.array i).used) ≡ 0 = rw u refl in
        let most = used_count-le (update t.array i (record (t.array i) { used = true })) n in
        grind arith

    -- The entry that NWK_ARRAY_GET_ENT hands out, if any.
    pub array_get_ent-cases :
        ((array_get_ent n t ≡ none)
          ⊎ ((i : ℕ) × (i < n)
              × (array_get_ent n t ≡ some (i, take_ent t i))
              × IsCounted n (take_ent t i)))
    unfolding array_get_ent
    array_get_ent-cases = elim (Option-cases (find_loop is_free n t.array 0)) [
      | inl full ↦ inl (rw (array_get_ent, full) refl)
      | inr (i, at) ↦
          let found = find_loop-lt is_free n t.array 0 i at in
          let low = found.0 in
          let hit = found.1 in
          let unused = is_free-used (t.array i) hit in
          inr
            (i, omega arith, rw (array_get_ent, at) refl, take_ent-IsCounted i (omega arith) unused)
    ]
