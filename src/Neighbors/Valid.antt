-- ===== src/Neighbors/Valid.antt =====
-- The neighbour table of nwk/nwk_neighbor.c and the references to its entries agree.
use zboss.Base.{
  ℕ, ◌+◌, ◌-◌, ◌%◌, ◌^◌, ◌<◌, ◌≤◌, ◌≡◌, ◌≢◌, refl, sym, ap, subst, ◌∙◌, arith, true, false, ◌==◌,
  Bool-cases, inl, inr, update, update_ne,
}
use zboss.Neighbors.{
  Neighbors, neighbor_table_size, no_neighbor, neighbor_init, neighbor_clear, new_neighbor,
}

-- Every reference with an entry leads to an entry in use that leads back; there is a free place.
pub record IsValid (s : Neighbors) : Type 0 where
  pub room : s.base_neighbor_used < s.base_neighbor_size
  pub bound : s.base_neighbor_size ≤ neighbor_table_size
  pub inside :
      (a : ℕ) → s.addr_to_neighbor a ≢ no_neighbor → s.addr_to_neighbor a < s.base_neighbor_used
  pub in_use :
      (a : ℕ)
      → s.addr_to_neighbor a ≢ no_neighbor
      → (s.base_neighbor (s.addr_to_neighbor a)).used ≡ true
  pub back :
      (a : ℕ)
      → s.addr_to_neighbor a ≢ no_neighbor
      → (s.base_neighbor (s.addr_to_neighbor a)).addr_ref ≡ a

-- A cleared table is valid.
pub neighbor_clear-IsValid : (s : Neighbors) → IsValid (neighbor_clear s)
unfolding neighbor_clear neighbor_init
neighbor_clear-IsValid s = record {
  room = omega arith;
  bound = omega arith;
  inside = λ a some_entry. absurd (some_entry refl);
  in_use = λ a some_entry. absurd (some_entry refl);
  back = λ a some_entry. absurd (some_entry refl);
}

-- What the table has for a reference.
abbrev pub Entry : ℕ → Neighbors → Type 0
Entry a t =
    (t.addr_to_neighbor a < t.base_neighbor_used)
    × ((t.base_neighbor (t.addr_to_neighbor a)).used ≡ true)
    × ((t.base_neighbor (t.addr_to_neighbor a)).addr_ref ≡ a)

-- The table without an entry.
abbrev pub without_entry : Neighbors → ℕ → Neighbors
without_entry s ref =
    let n = s.addr_to_neighbor ref in
    record s {
      addr_to_neighbor = update s.addr_to_neighbor ref no_neighbor;
      base_neighbor = update s.base_neighbor n (record (s.base_neighbor n) { used = false });
    }

-- The table with a new entry.
abbrev pub with_entry : Neighbors → ℕ → ℕ → Neighbors
with_entry s depth ref =
    let n = s.base_neighbor_used % 256 in
    record s {
      addr_to_neighbor = update s.addr_to_neighbor ref n;
      base_neighbor_used = s.base_neighbor_used + 1;
      base_neighbor = update s.base_neighbor n (new_neighbor depth ref);
    }

module _ (s : Neighbors) (v : IsValid s) where
  module _ (ref : ℕ) (some_entry : s.addr_to_neighbor ref ≢ no_neighbor) where
    other_refs :
        (a : ℕ)
        → (without_entry s ref).addr_to_neighbor a ≢ no_neighbor
        → (a ≢ ref) × ((without_entry s ref).addr_to_neighbor a ≡ s.addr_to_neighbor a)
    other_refs a h = elim (Bool-cases (a == ref)) [
      | inl same ↦ absurd (rw same at h refl)
      | inr other ↦ (ground arith, rw other refl)
    ]

    other_entries :
        (a : ℕ)
        → s.addr_to_neighbor a ≢ no_neighbor
        → a ≢ ref
        → (without_entry s ref).base_neighbor (s.addr_to_neighbor a)
          ≡ s.base_neighbor (s.addr_to_neighbor a)
    other_entries a h other =
        update_ne s.base_neighbor (s.addr_to_neighbor ref) (s.addr_to_neighbor a) _ (λ e.
          other
            (sym (v.back a h) ∙ ap (λ n. (s.base_neighbor n).addr_ref) e ∙ v.back ref some_entry))

    pub without_entry-IsValid : IsValid (without_entry s ref)
    without_entry-IsValid = record {
      room = v.room;
      bound = v.bound;
      inside = λ a h. let (other, e) = other_refs a h in rw e (v.inside a (λ r. h (e ∙ r)));
      in_use = λ a h.
          let (other, e) = other_refs a h in
          let h' : s.addr_to_neighbor a ≢ no_neighbor = λ r. h (e ∙ r) in
          ap (λ n. ((without_entry s ref).base_neighbor n).used) e
          ∙ ap (λ x. x.used) (other_entries a h' other)
          ∙ v.in_use a h';
      back = λ a h.
          let (other, e) = other_refs a h in
          let h' : s.addr_to_neighbor a ≢ no_neighbor = λ r. h (e ∙ r) in
          ap (λ n. ((without_entry s ref).base_neighbor n).addr_ref) e
          ∙ ap (λ x. x.addr_ref) (other_entries a h' other)
          ∙ v.back a h';
    }

  module _ (depth ref : ℕ) (no_entry : s.addr_to_neighbor ref ≡ no_neighbor)
      (not_full : s.base_neighbor_used ≢ (s.base_neighbor_size + 2 ^ 32 - 1) % 2 ^ 32) where
    place : s.base_neighbor_used % 256 ≡ s.base_neighbor_used
    place = let room = v.room in let bound = v.bound in omega arith

    room_left : s.base_neighbor_used + 1 < s.base_neighbor_size
    room_left =
        let room = v.room in
        let bound = v.bound in
        let small : (s.base_neighbor_size + 2 ^ 32 - 1) % 2 ^ 32 ≡ s.base_neighbor_size - 1 =
          omega arith in
        ground (arith, not_full)

    pub new-Entry : Entry ref (with_entry s depth ref)
    unfolding new_neighbor
    new-Entry =
        let self : (ref == ref) ≡ true = ground arith in
        let itself : (s.base_neighbor_used % 256 == s.base_neighbor_used % 256) ≡ true =
          ground arith in
        rw (self, itself) (omega (arith, place), refl, refl)

    old-Entry :
        (a : ℕ) → a ≢ ref → s.addr_to_neighbor a ≢ no_neighbor → Entry a (with_entry s depth ref)
    old-Entry a other h =
        let apart : (a == ref) ≡ false = ground arith in
        let below = v.inside a h in
        let before : (s.addr_to_neighbor a == s.base_neighbor_used % 256) ≡ false =
          let at = place in ground arith in
        rw (apart, before) (omega arith, v.in_use a h, v.back a h)

    every-Entry :
        (a : ℕ)
        → (with_entry s depth ref).addr_to_neighbor a ≢ no_neighbor
        → Entry a (with_entry s depth ref)
    every-Entry a h = elim (Bool-cases (a == ref)) [
      | inl same ↦ subst (λ x. Entry x (with_entry s depth ref)) (ground arith) new-Entry
      | inr other ↦ old-Entry a (ground arith) (rw other at h)
    ]

    pub with_entry-IsValid : IsValid (with_entry s depth ref)
    with_entry-IsValid = record {
      room = room_left;
      bound = v.bound;
      inside = λ a h. (every-Entry a h).0;
      in_use = λ a h. (every-Entry a h).1;
      back = λ a h. (every-Entry a h).2;
    }
