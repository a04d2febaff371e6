-- ===== src/Address/Compress.antt =====
-- `zb_ieee_addr_compress` of common/zb_address.c and its inverse.
use zboss.Base.{
  ℕ, ◌≤◌, ◌<◌, ◌≡◌, refl, sym, ap, ◌∙◌, arith, true, false, ◌==◌, Bool-cases, some_of_if, not_both,
  and_right, inl, inr, List, ◌++◌, some, length, take, drop, take_all, length-drop,
  take-append-drop, update, update_self, First, First-unique,
}
use mathlib.Core.Option
use zboss.Address.{
  Compressed, Addresses, dev_manufactorer_table_size, has_manufacturer, compress_loop,
  manufacturer_place, ieee_addr_compress, ieee_addr_decompress,
}
use zboss.Address.Manufacturers.{
  same_octets_refl, same_octets→eq, compress_loop-First, Place, manufacturer_place-Place,
}

-- The table with the manufacturer at a place.
abbrev pub with_manufacturer : Addresses → List ℕ → ℕ → Addresses
with_manufacturer s address i = record s {
  used_manufacturer = update s.used_manufacturer i true;
  device_manufacturer = update s.device_manufacturer i (take 3 address);
}

-- The address compressed, its manufacturer being at a place.
abbrev pub compressed_at : List ℕ → ℕ → Compressed
compressed_at address i = record { dev_manufacturer = i; device_id = take 5 (drop 3 address) }

-- What a call that succeeds returns.
pub ieee_addr_compress-some :
    (s : Addresses) (address : List ℕ) {c : Compressed} {s' : Addresses}
    → ieee_addr_compress s address ≡ some (c, s')
    → (i : ℕ) × Place s address i
      × (i ≡ manufacturer_place s address)
      × (c ≡ compressed_at address i)
      × (s' ≡ with_manufacturer s address i)
unfolding ieee_addr_compress
ieee_addr_compress-some s address h =
    let i = manufacturer_place s address in
    let (room, e) = some_of_if (i == dev_manufactorer_table_size) _ _ h in
    (i, manufacturer_place-Place s address (ground arith), refl, ap (λ r. r.0) e, ap (λ r. r.1) e)

module _ (s : Addresses) (address : List ℕ) (i : ℕ) where
  back :
      length address ≡ 8
      → ieee_addr_decompress
          (with_manufacturer s address i)
          (record { dev_manufacturer = i; device_id = take 5 (drop 3 address) })
        ≡ address
  unfolding ieee_addr_decompress
  back size =
      let rest : length (drop 3 address) ≤ 5 = omega (arith, length-drop 3 address) in
      rw (update_self s.device_manufacturer i (take 3 address), take_all 5 (drop 3 address) rest)
        (take-append-drop 3 address)

  module _ (place : Place s address i) where
    place_inside : i < dev_manufactorer_table_size
    place_inside = elim place [ Place.old _ inside ↦ inside | Place.new _ _ inside ↦ inside ]

    place_same : s.used_manufacturer i ≡ true → take 3 address ≡ s.device_manufacturer i
    unfolding has_manufacturer
    place_same used = elim place [
      | Place.old first inside ↦
          sym (same_octets→eq _ _ (and_right (s.used_manufacturer i) _ (first.passes inside)))
      | Place.new _ unused _ ↦ absurd (not_both (sym used ∙ unused))
    ]

    same_manufacturer :
        (j : ℕ)
        → s.used_manufacturer j ≡ true
        → (with_manufacturer s address i).device_manufacturer j ≡ s.device_manufacturer j
    same_manufacturer j used = elim (Bool-cases (j == i)) [
      | inl here ↦
          let same : j ≡ i = ground arith in
          rw here (
            place_same (ap s.used_manufacturer (sym same) ∙ used)
            ∙ ap s.device_manufacturer (sym same))
      | inr other ↦ rw other refl
    ]

    earlier : (j : ℕ) → j < i → has_manufacturer s address j ≡ false
    earlier j below = elim place [
      | Place.old first _ ↦ first.before j (omega arith) below
      | Place.new none_has _ inside ↦ none_has j (omega arith)
    ]

    -- The place is the first that has the manufacturer in every table with these manufacturers.
    module _ (t : Addresses) (used : t.used_manufacturer ≡ update s.used_manufacturer i true)
        (manufacturers : t.device_manufacturer
          ≡ update s.device_manufacturer i (take 3 address)) where
      now_First : First (has_manufacturer t address) 0 dev_manufactorer_table_size i
      unfolding has_manufacturer
      now_First =
          let inside = place_inside in
          record {
            from = omega arith;
            upto = omega arith;
            before = λ j _ below.
                let other : (j == i) ≡ false = ground arith in
                rw (used, manufacturers, other) (earlier j below);
            passes = λ _.
                let self : (i == i) ≡ true = ground arith in
                rw (used, manufacturers, self) (same_octets_refl (take 3 address));
          }

      again_place : manufacturer_place t address ≡ i
      unfolding manufacturer_place
      again_place =
          let size = dev_manufactorer_table_size in
          let found : (compress_loop size t address 0 size).0 ≡ i =
            First-unique _ 0 size _ i (compress_loop-First t address size 0 size) now_First in
          let inside = place_inside in
          let not_end : (i == size) ≡ false = ground arith in rw (found, not_end) refl

      pub recompressed :
          ieee_addr_compress t address
          ≡ some (compressed_at address i, with_manufacturer t address i)
      unfolding ieee_addr_compress
      recompressed =
          let inside = place_inside in
          let not_end : (i == dev_manufactorer_table_size) ≡ false = ground arith in
          rw (again_place, not_end) refl

    kept :
        (d : Compressed)
        → s.used_manufacturer d.dev_manufacturer ≡ true
        → ieee_addr_decompress (with_manufacturer s address i) d ≡ ieee_addr_decompress s d
    unfolding ieee_addr_decompress
    kept d used = ap (λ m. m ++ d.device_id) (same_manufacturer d.dev_manufacturer used)

-- When `zb_ieee_addr_compress` succeeds on an address of eight octets, decompressing gives the address
-- back, every address compressed before, for a manufacturer in use, still decompresses as before, and
-- compressing the address again gives the same.
pub ieee_addr_decompress-ieee_addr_compress :
    (s : Addresses) (address : List ℕ) (c : Compressed) (s' : Addresses)
    → length address ≡ 8
    → ieee_addr_compress s address ≡ some (c, s')
    → (ieee_addr_decompress s' c ≡ address)
      × ((d : Compressed)
          → s.used_manufacturer d.dev_manufacturer ≡ true
          → ieee_addr_decompress s' d ≡ ieee_addr_decompress s d)
      × (Option.map (λ r. r.0) (ieee_addr_compress s' address) ≡ some c)
ieee_addr_decompress-ieee_addr_compress s address c s' size h =
    let (i, place, at, c_is, s'_is) = ieee_addr_compress-some s address h in
    rw (c_is, s'_is)
      (
        back s address i size,
        λ d used. kept s address i place d used,
        ap (Option.map (λ r. r.0))
            (recompressed s address i place (with_manufacturer s address i) refl refl),
      )
