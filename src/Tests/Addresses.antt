-- ===== src/Tests/Addresses.antt =====
-- Address tables, empty and with a few entries.
use zboss.Base.{
  ℕ, ◌-◌, ◌<◌, ◌≡◌, refl, arith, true, false, ltb, ◌==◌, ◌&&◌, List, [], ◌∷◌, if◌then◌else◌, none,
  some,
}
use mathlib.Core.Option
use zboss.Alarm.{ok}
use zboss.Shorts.{Shorts, short_search, search_place, add_short_sorted}
use zboss.Pans.{hash_four, hash_step}
use zboss.Shorts.Order.{Sorted}
use zboss.Shorts.Delete.{OnlyAt, without, del_short_sorted, del_short_sorted-elements}
use zboss.Shorts.Delete.Undo.{del_short_sorted-add_short_sorted}
use zboss.Address.{
  Compressed, Addresses, ieee_addr_compress, ieee_addr_decompress, manufacturer_place,
  compress_loop, has_manufacturer, compressed_ieee_hash, ieee_search, ieee_loop, has_ieee,
  address_lock, address_by_ref,
}
use zboss.Address.Entries.{
  Outcome, zero_ieee, address_by_ieee, by_compressed, maybe_lock, locked, found_or_add, addr_add,
  add_at, free_loop, fill_entry, clock_tick, tick_again, tick_loop, sort_in, address_update,
  update_compressed, lock_outcome, update_found,
}
use zboss.Address.Compress.{
  with_manufacturer, compressed_at, ieee_addr_decompress-ieee_addr_compress,
}
use zboss.Address.ByIeee.{answer, address_by_ieee-address_by_ieee}
use zboss.Address.Update.{address_by_ref-address_update}

-- Nothing is known yet.
abbrev blank : Addresses
blank = record {
  used_manufacturer = λ i. false;
  device_manufacturer = λ i. [];
  ieee_addr = λ i. zero_ieee;
  used = λ i. false;
  lock_cnt = λ i. 0;
  clock = λ i. false;
  shorts = record { addr = λ i. 0; short_sorted = λ i. 0; n_sorted_elements = 0 };
  n_elements = 0;
  clock_i = 0;
}

abbrev ieee : List ℕ
ieee = 1 ∷ 2 ∷ 3 ∷ 4 ∷ 5 ∷ 6 ∷ 7 ∷ 8 ∷ []

-- The table that a call leaves.
abbrev table_of : Outcome → Addresses
table_of none = blank
table_of (some (ret, ref, s)) = s

ieee_addr_decompress-ieee_addr_compress_example :
    (ieee_addr_decompress (with_manufacturer blank ieee 15) (compressed_at ieee 15) ≡ ieee)
    × ((d : Compressed)
        → blank.used_manufacturer d.dev_manufacturer ≡ true
        → ieee_addr_decompress (with_manufacturer blank ieee 15) d ≡ ieee_addr_decompress blank d)
    × (Option.map (λ r. r.0) (ieee_addr_compress (with_manufacturer blank ieee 15) ieee)
        ≡ some (compressed_at ieee 15))
unfolding ieee_addr_compress manufacturer_place compress_loop has_manufacturer
ieee_addr_decompress-ieee_addr_compress_example =
    ieee_addr_decompress-ieee_addr_compress blank ieee (compressed_at ieee 15)
      (with_manufacturer blank ieee 15) refl refl

-- The address is added and its entry locked.
abbrev after_add : Addresses
after_add = table_of (address_by_ieee blank ieee true true)

address_by_ieee-address_by_ieee_example :
    answer (address_by_ieee after_add ieee false false) ≡ some (ok, some 82)
unfolding address_by_ieee by_compressed maybe_lock locked found_or_add addr_add add_at free_loop
    fill_entry clock_tick tick_again tick_loop sort_in ieee_addr_compress manufacturer_place
    compress_loop has_manufacturer compressed_ieee_hash ieee_search ieee_loop has_ieee address_lock
    hash_four hash_step
address_by_ieee-address_by_ieee_example =
    address_by_ieee-address_by_ieee blank ieee true true 82 after_add refl

-- The device announces both addresses.
abbrev after_update : Addresses
after_update = table_of (address_update blank ieee 4660 true)

address_by_ref-address_update_example : address_by_ref after_update 82 ≡ (ieee, 4660)
unfolding address_update update_compressed lock_outcome update_found maybe_lock locked addr_add
    add_at free_loop fill_entry clock_tick tick_again tick_loop sort_in ieee_addr_compress
    manufacturer_place compress_loop has_manufacturer compressed_ieee_hash ieee_search ieee_loop
    has_ieee address_lock short_search search_place add_short_sorted hash_four hash_step
address_by_ref-address_update_example =
    address_by_ref-address_update blank ieee 4660 true 82 after_update refl refl

-- Three elements, with the first of them also right behind the table.
abbrev stale : Shorts
stale = record {
  addr = λ ref. ref;
  short_sorted = λ i. if i == 0 then 3 else if i == 1 then 5 else if i == 2 then 7 else 3;
  n_sorted_elements = 3;
}

stale-OnlyAt : OnlyAt stale.short_sorted 3 3 0
stale-OnlyAt = record { inside = omega arith; here = refl; apart = λ j below other e. ground arith }

-- One element is left of three.
del_short_sorted-elements_example :
    ((del_short_sorted stale 3).n_sorted_elements
      ≡ 3 - (if ltb 0 (3 - 1) && stale.short_sorted 3 == 3 then 2 else 1))
    × ((i : ℕ)
        → i < (del_short_sorted stale 3).n_sorted_elements
        → (del_short_sorted stale 3).short_sorted i ≡ without stale.short_sorted 0 i)
del_short_sorted-elements_example = del_short_sorted-elements stale 3 0 stale-OnlyAt

-- The addresses 10 and 30 of the entries 4 and 2, with the entry 7 about to get 20.
abbrev two_shorts : Shorts
two_shorts = record {
  addr = λ ref. if ref == 4 then 10 else if ref == 7 then 20 else 30;
  short_sorted = λ i. if i == 0 then 4 else 2;
  n_sorted_elements = 2;
}

two_shorts-Sorted : Sorted two_shorts
two_shorts-Sorted i j ord inside = ground arith

del_short_sorted-add_short_sorted_example :
    let s' = del_short_sorted (add_short_sorted two_shorts 7 20) 7 in
    (s'.n_sorted_elements ≡ 2) × ((i : ℕ) → i < 2 → s'.short_sorted i ≡ two_shorts.short_sorted i)
del_short_sorted-add_short_sorted_example =
    del_short_sorted-add_short_sorted two_shorts 7 20 two_shorts-Sorted (λ j below e. ground arith)
      (λ e. ground arith)
