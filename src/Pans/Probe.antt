-- ===== src/Pans/Probe.antt =====
-- The probing loops see every place of the table.
use zboss.Base.{
  ℕ, zero, suc, ◌+◌, ◌%◌, ◌<◌, ◌≤◌, ◌≡◌, refl, sym, ap, ◌∙◌, arith, Bool, true, false, ◌==◌,
  if◌then◌else◌, Bool-cases, inl, inr, ◌⊎◌, List, Option, none, some,
}
use native.Mathlib.Decide.{dec_lt}
use zboss.Pans.{Pans, panid_table_size, pan_id_hash, has_pan_id, set_loop, get_loop}

pub pan_id_hash-lt : (pan_id : List ℕ) → pan_id_hash pan_id < panid_table_size
unfolding pan_id_hash
pan_id_hash-lt pan_id = omega arith

-- What one round of the loop tells of its outcome.
some_round :
    (found end : Bool) (i r : ℕ) (rest : Option ℕ)
    → (if found then some i else if end then none else rest) ≡ some r
    → ((found ≡ true) × (i ≡ r)) ⊎ ((found ≡ false) × (rest ≡ some r))
some_round true end i r rest e = inl (refl, ap (λ o. elim o [ none ↦ i | some x ↦ x ]) e)
some_round false true i r rest e = ground arith
some_round false false i r rest e = inr (refl, e)

none_round :
    (found end : Bool) (i : ℕ) (rest : Option ℕ)
    → (if found then some i else if end then none else rest) ≡ none
    → (found ≡ false) × ((end ≡ true) ⊎ (rest ≡ none))
none_round true end i rest e = ground arith
none_round false true i rest e = (refl, inl refl)
none_round false false i rest e = (refl, inr e)

module _ (s : Pans) (pan_id : List ℕ) (h : ℕ) (h_in : h < panid_table_size) where
  -- Both loops find the same place.
  pub set_loop-get_loop :
      (k i : ℕ) (free : Option ℕ) → (set_loop k s pan_id h i free).0 ≡ get_loop k s pan_id h i
  unfolding set_loop get_loop
  set_loop-get_loop zero i free = refl
  set_loop-get_loop (suc k) i free =
      let next = (i + 1) % panid_table_size in
      let rest = set_loop-get_loop k next (if s.used_pan_addr i then free else some i) in
      elim (Bool-cases (has_pan_id s pan_id i)) [
        | inl found ↦ rw found refl
        | inr missed ↦ elim (Bool-cases (next == h)) [
          | inl end ↦ rw (missed, end) refl
          | inr more ↦ rw (missed, more) rest
        ]
      ]

  -- What the loop finds has the identifier.
  pub get_loop-some :
      (k i r : ℕ)
      → i < panid_table_size
      → get_loop k s pan_id h i ≡ some r
      → (r < panid_table_size) × (has_pan_id s pan_id r ≡ true)
  unfolding get_loop
  get_loop-some zero i r inside e = ground arith
  get_loop-some (suc k) i r inside e =
      let next = (i + 1) % panid_table_size in
      elim (some_round (has_pan_id s pan_id i) (next == h) i r (get_loop k s pan_id h next) e) [
        | inl (found, same) ↦ (omega arith, ap (has_pan_id s pan_id) (sym same) ∙ found)
        | inr (missed, rest) ↦ get_loop-some k next r (omega arith) rest
      ]

  -- When it finds none, no place from the start on has the identifier.
  pub get_loop-none :
      (k d : ℕ)
      → d < panid_table_size
      → panid_table_size ≤ k + d
      → get_loop k s pan_id h ((h + d) % panid_table_size) ≡ none
      → (e : ℕ) → d ≤ e
      → e < panid_table_size
      → has_pan_id s pan_id ((h + e) % panid_table_size) ≡ false
  unfolding get_loop
  get_loop-none zero d below fuel gone e from inside = ground arith
  get_loop-none (suc k) d below fuel gone e from inside =
      let i = (h + d) % panid_table_size in
      let next = (i + 1) % panid_table_size in
      let onward : next ≡ (h + (d + 1)) % panid_table_size = omega arith in
      let (missed, after) =
        none_round (has_pan_id s pan_id i) (next == h) i (get_loop k s pan_id h next) gone in
      elim (dec_lt d e) [
        | no here ↦
            let same : e ≡ d = omega arith in
            ap (λ x. has_pan_id s pan_id ((h + x) % panid_table_size)) same ∙ missed
        | yes later ↦ elim after [
          | inl end ↦ let at_h : next ≡ h = ground arith in absurd (omega arith)
          | inr rest ↦
              get_loop-none k (d + 1) (omega arith) (omega arith)
                (ap (get_loop k s pan_id h) (sym onward) ∙ rest) e (omega arith) inside
        ]
      ]
