-- ===== src/Address/Manufacturers.antt =====
-- Where `zb_ieee_addr_compress` of common/zb_address.c finds or makes the place of a manufacturer.
use zboss.Base.{
  ℕ, zero, suc, ◌+◌, ◌≤◌, ◌<◌, ◌≡◌, ◌≢◌, refl, arith, true, false, ◌==◌, if◌then◌else◌, Bool-cases,
  ◌⊎◌, inl, inr, List, [], ◌∷◌, First, First-end, First-here, First-later,
}
use zboss.Address.{
  Addresses, dev_manufactorer_table_size, same_octets, has_manufacturer, compress_loop,
  manufacturer_place,
}

pub same_octets_refl : (xs : List ℕ) → same_octets xs xs ≡ true
unfolding same_octets
same_octets_refl [] = refl
same_octets_refl (x ∷ xs) = ground (arith, same_octets_refl xs)

pub same_octets→eq : (xs ys : List ℕ) → same_octets xs ys ≡ true → xs ≡ ys
unfolding same_octets
same_octets→eq [] [] h = refl
same_octets→eq [] (y ∷ ys) h = ground arith
same_octets→eq (x ∷ xs) [] h = ground arith
same_octets→eq (x ∷ xs) (y ∷ ys) h = ground (arith, same_octets→eq xs ys)

module _ (s : Addresses) (address : List ℕ) where
  -- The loop stops at the first place with the manufacturer, or behind the last one.
  pub compress_loop-First :
      (k i free_i : ℕ)
      → First (has_manufacturer s address) i k (compress_loop k s address i free_i).0
  unfolding compress_loop
  compress_loop-First zero i free_i = First-end _ i
  compress_loop-First (suc k) i free_i =
      let next = if s.used_manufacturer i then free_i else i in
      elim (Bool-cases (has_manufacturer s address i)) [
        | inl found ↦ rw found (First-here (has_manufacturer s address) i k found)
        | inr missed ↦ rw missed (
            First-later (has_manufacturer s address) i k _ missed
              (compress_loop-First k (i + 1) next))
      ]

  -- The free place that it hands out is the one handed in, or one that is not in use.
  compress_loop-free :
      (k i free_i : ℕ)
      → i + k ≤ dev_manufactorer_table_size
      → let f = (compress_loop k s address i free_i).1 in
        (f ≡ free_i) ⊎ ((f < dev_manufactorer_table_size) × (s.used_manufacturer f ≡ false))
  unfolding compress_loop
  compress_loop-free zero i free_i h = inl refl
  compress_loop-free (suc k) i free_i h = elim (Bool-cases (has_manufacturer s address i)) [
    | inl found ↦ rw found (inl refl)
    | inr missed ↦ rw missed (elim (Bool-cases (s.used_manufacturer i)) [
      | inl used ↦ rw used (compress_loop-free k (i + 1) free_i (omega arith))
      | inr free ↦ rw free (elim (compress_loop-free k (i + 1) i (omega arith)) [
        | inl same ↦ inr (rw same (omega arith), rw same free)
        | inr other ↦ inr other
      ])
    ])
  ]

-- Where a manufacturer goes: a place that has it already, the first such; or one that is not in use,
-- when no place has it.
pub data Place (s : Addresses) (address : List ℕ) (i : ℕ) : Type 0 where
  old :
      First (has_manufacturer s address) 0 dev_manufactorer_table_size i
      → i < dev_manufactorer_table_size
      → Place s address i
  new :
      ((j : ℕ) → j < dev_manufactorer_table_size → has_manufacturer s address j ≡ false)
      → s.used_manufacturer i ≡ false
      → i < dev_manufactorer_table_size
      → Place s address i

place_of :
    (s : Addresses) (address : List ℕ) (i free_i : ℕ)
    → First (has_manufacturer s address) 0 dev_manufactorer_table_size i
    → (free_i ≡ dev_manufactorer_table_size)
      ⊎ ((free_i < dev_manufactorer_table_size) × (s.used_manufacturer free_i ≡ false))
    → let place = if i == dev_manufactorer_table_size then free_i else i in
      place ≢ dev_manufactorer_table_size → Place s address place
place_of s address i free_i first free some_place =
    let top = first.upto in
    elim (Bool-cases (i == dev_manufactorer_table_size)) [
      | inr inner ↦ rw inner (Place.old first (ground arith))
      | inl end ↦ rw end (elim free [
        | inl full ↦ absurd (rw end at some_place full)
        | inr (inside, unused) ↦
            Place.new (λ j below. first.before j (omega arith) (ground arith)) unused inside
      ])
    ]

pub manufacturer_place-Place :
    (s : Addresses) (address : List ℕ)
    → manufacturer_place s address ≢ dev_manufactorer_table_size
    → Place s address (manufacturer_place s address)
unfolding manufacturer_place
manufacturer_place-Place s address some_place =
    let size = dev_manufactorer_table_size in
    place_of s address _ _ (compress_loop-First s address size 0 size)
      (compress_loop-free s address size 0 size (omega arith)) some_place
