-- ===== src/Address/ByIeee.antt =====
-- `zb_address_by_ieee` of common/zb_address.c hands out the same reference ever after.
use zboss.Base.{
  ℕ, ◌+◌, ◌%◌, ◌<◌, ◌≡◌, refl, sym, ap, subst, ◌∙◌, arith, Bool, true, false, ◌==◌, List, Option,
  none, some, some-inj, some_of_if, update,
}
use mathlib.Core.Option
use zboss.Alarm.{Ret, ok, overflow, not_found, already_exists, no_memory}
use zboss.Address.{
  Compressed, Addresses, ieee_addr_table_size, has_ieee, ieee_search, compressed_cmp,
  compressed_ieee_hash, ieee_addr_compress, address_lock,
}
use zboss.Address.Compress.{ieee_addr_compress-some, with_manufacturer, compressed_at, recompressed}
use zboss.Address.Manufacturers.{same_octets_refl}
use zboss.Address.Search.{
  ieee_search-congr, ieee_search-none, ieee_search-only, compressed_ieee_hash-lt,
}
use zboss.Address.Tick.{clock_tick-SameEntries, free_loop-some}
use zboss.Address.Entries.{
  no_short, clock_tick, free_loop, fill_entry, add_at, addr_add, Outcome, locked, maybe_lock,
  found_or_add, by_compressed, address_by_ieee,
}

-- Locking changes nothing that a search or a compression reads.
pub record SameLong (s t : Addresses) : Type 0 where
  pub used_manufacturer : t.used_manufacturer ≡ s.used_manufacturer
  pub device_manufacturer : t.device_manufacturer ≡ s.device_manufacturer
  pub ieee_addr : t.ieee_addr ≡ s.ieee_addr
  pub used : t.used ≡ s.used
  pub shorts : t.shorts ≡ s.shorts

SameLong-refl : (s : Addresses) → SameLong s s
SameLong-refl s = record {
  used_manufacturer = refl;
  device_manufacturer = refl;
  ieee_addr = refl;
  used = refl;
  shorts = refl;
}

locked-some :
    (i ref : ℕ) (o : Option Addresses) (s' : Addresses)
    → locked i o ≡ some (ok, some ref, s')
    → (i ≡ ref) × (o ≡ some s')
unfolding locked
locked-some i ref none s' e = ground arith
locked-some i ref (some s) s' e =
    let q = some-inj e in (some-inj (ap (λ r. r.1) q), ap (λ r. some r.2) q)

address_lock-some : (s s' : Addresses) (ref : ℕ) → address_lock s ref ≡ some s' → SameLong s s'
unfolding address_lock
address_lock-some s s' ref e =
    let locked_table : Addresses = record s {
      lock_cnt = update s.lock_cnt ref ((s.lock_cnt ref + 1) % 16);
      clock = update s.clock ref true;
    } in
    let (_, q) = some_of_if ((s.lock_cnt ref + 1) % 16 == 0) locked_table s' e in
    rw q (record {
      used_manufacturer = refl;
      device_manufacturer = refl;
      ieee_addr = refl;
      used = refl;
      shorts = refl;
    })

unchanged :
    (r : Ret × Option ℕ × Addresses) (ref : ℕ) (s' : Addresses)
    → some r ≡ some (ok, some ref, s')
    → (r.0 ≡ ok) × (r.1 ≡ some ref) × SameLong r.2 s'
unchanged (ret, i, s) ref s' e =
    let q = some-inj e in
    (ap (λ r. r.0) q, ap (λ r. r.1) q, subst (SameLong s) (ap (λ r. r.2) q) (SameLong-refl s))

pub maybe_lock-some :
    (lock : Bool) (r : Ret × Option ℕ × Addresses) (ref : ℕ) (s' : Addresses)
    → maybe_lock lock r ≡ some (ok, some ref, s')
    → (r.0 ≡ ok) × (r.1 ≡ some ref) × SameLong r.2 s'
unfolding maybe_lock
maybe_lock-some true (ok, some i, s) ref s' e =
    let (same, q) = locked-some i ref (address_lock s i) s' e in
    (refl, ap some same, address_lock-some s s' i q)
maybe_lock-some true (ok, none, s) ref s' e = unchanged _ ref s' e
maybe_lock-some true (overflow, i, s) ref s' e = unchanged _ ref s' e
maybe_lock-some true (not_found, i, s) ref s' e = unchanged _ ref s' e
maybe_lock-some true (already_exists, i, s) ref s' e = unchanged _ ref s' e
maybe_lock-some true (no_memory, i, s) ref s' e = unchanged _ ref s' e
maybe_lock-some false (ret, i, s) ref s' e = unchanged _ ref s' e

-- The call finds or adds the entry `ref` for the long address: the search then finds it.
module _ (s : Addresses) (c : Compressed) where
  fill_entry-search :
      (short_addr i : ℕ)
      → ieee_search s c ≡ none
      → i < ieee_addr_table_size
      → ieee_search (fill_entry (clock_tick s) c short_addr i) c ≡ some i
  unfolding fill_entry has_ieee compressed_cmp
  fill_entry-search short_addr i gone inside =
      let t = clock_tick s in
      let same = clock_tick-SameEntries s in
      let self : (i == i) ≡ true = ground arith in
      let itself : (c.dev_manufacturer == c.dev_manufacturer) ≡ true = ground arith in
      ieee_search-only (fill_entry t c short_addr i) c i inside
        (rw (self, itself) (same_octets_refl c.device_id))
        (λ j below other.
          let apart : (j == i) ≡ false = ground arith in
          rw (apart, same.used, same.ieee_addr) (ieee_search-none s c gone j below))

  -- What `zb_address_by_ieee` has done before it locks the entry.
  pub record Has (ref : ℕ) (t : Addresses) : Type 0 where
    pub searched : ieee_search t c ≡ some ref
    pub used_manufacturer : t.used_manufacturer ≡ s.used_manufacturer
    pub device_manufacturer : t.device_manufacturer ≡ s.device_manufacturer

  add_at-Has :
      (short_addr ref : ℕ) (o : Option ℕ)
      → ieee_search s c ≡ none
      → ((i : ℕ) → o ≡ some i → i < ieee_addr_table_size)
      → (add_at s c short_addr o).0 ≡ ok
      → (add_at s c short_addr o).1 ≡ some ref
      → Has ref (add_at s c short_addr o).2
  unfolding add_at fill_entry
  add_at-Has short_addr ref none gone inside e q = cc
  add_at-Has short_addr ref (some i) gone inside e q =
      let same = clock_tick-SameEntries s in
      record {
        searched = fill_entry-search short_addr i gone (inside i refl) ∙ q;
        used_manufacturer = same.used_manufacturer;
        device_manufacturer = same.device_manufacturer;
      }

  pub found_or_add-Has :
      (short_addr ref : ℕ) (create : Bool) (o : Option ℕ)
      → ieee_search s c ≡ o
      → let r = found_or_add s (some c) short_addr create o in
        r.0 ≡ ok → r.1 ≡ some ref → Has ref r.2
  unfolding found_or_add addr_add
  found_or_add-Has short_addr ref create (some i) found e q =
      let marked = record s { clock = update s.clock i true } in
      record {
        searched = ieee_search-congr marked s c (λ j. unfold has_ieee in refl) ∙ found ∙ q;
        used_manufacturer = refl;
        device_manufacturer = refl;
      }
  found_or_add-Has short_addr ref true none gone e q =
      let start = compressed_ieee_hash c in
      add_at-Has short_addr ref (free_loop ieee_addr_table_size s start start) gone
        (λ i h.
          (free_loop-some ieee_addr_table_size s start start i (compressed_ieee_hash-lt c) h).0)
        e q
  found_or_add-Has short_addr ref false none gone e q = cc

-- The code and the reference that a call hands out.
abbrev pub answer : Outcome → Option (Ret × Option ℕ)
answer o = Option.map (λ r. (r.0, r.1)) o

module _ (s : Addresses) (ieee : List ℕ) (create lock : Bool) (ref : ℕ) (s' : Addresses) where
  by_compressed-again :
      (o : Option (Compressed × Addresses))
      → ieee_addr_compress s ieee ≡ o
      → by_compressed create lock o ≡ some (ok, some ref, s')
      → answer (address_by_ieee s' ieee false false) ≡ some (ok, some ref)
  unfolding by_compressed address_by_ieee maybe_lock found_or_add
  by_compressed-again none e h = cc
  by_compressed-again (some (c, t)) e h =
      let (i, place, _, c_is, t_is) = ieee_addr_compress-some s ieee e in
      let r = found_or_add t (some c) no_short create (ieee_search t c) in
      let (code, handed, same) = maybe_lock-some lock r ref s' h in
      let has = found_or_add-Has t c no_short ref create (ieee_search t c) refl code handed in
      let compressed =
        recompressed s ieee i place s'
          (same.used_manufacturer ∙ has.used_manufacturer ∙ ap (λ x. x.used_manufacturer) t_is)
          (same.device_manufacturer
            ∙ has.device_manufacturer
            ∙ ap (λ x. x.device_manufacturer) t_is) in
      let s'' = with_manufacturer s' ieee i in
      let found : ieee_search s'' c ≡ some ref =
        ieee_search-congr s'' r.2 c (λ j. unfold has_ieee in rw (same.used, same.ieee_addr) refl)
        ∙ has.searched in
      let c' = compressed_at ieee i in
      ap (λ o. answer (by_compressed false false o)) compressed
      ∙ ap (λ o. answer (maybe_lock false (found_or_add s'' (some c') no_short false o)))
          (ap (ieee_search s'') (sym c_is) ∙ found)

-- When `zb_address_by_ieee` returns RET_OK and a reference, whether it found the address or added an
-- entry for it, and whether or not it locked the entry, a later call for the same address that may not
-- add an entry returns RET_OK and the same reference.
pub address_by_ieee-address_by_ieee :
    (s : Addresses) (ieee : List ℕ) (create lock : Bool) (ref : ℕ) (s' : Addresses)
    → address_by_ieee s ieee create lock ≡ some (ok, some ref, s')
    → answer (address_by_ieee s' ieee false false) ≡ some (ok, some ref)
address_by_ieee-address_by_ieee s ieee create lock ref s' h =
    by_compressed-again s ieee create lock ref s' (ieee_addr_compress s ieee) refl
      (unfold address_by_ieee in h)
