-- ===== src/Address/Update.antt =====
-- `zb_address_update` of common/zb_address.c gives the entry both addresses.
use zboss.Base.{
  ℕ, ◌≡◌, refl, ap, ap₂, ◌∙◌, arith, Bool, ◌==◌, if◌then◌else◌, Bool-cases, inl, inr, List, Option,
  none, some, some-inj, update_self, subst, length, ◌++◌,
}
use zboss.Alarm.{ok}
use zboss.Shorts.{Shorts, short_search, add_short_sorted}
use zboss.Shorts.Delete.{del_short_sorted}
use zboss.Address.{
  Compressed, Addresses, ieee_search, ieee_addr_compress, ieee_addr_decompress, address_by_ref,
}
use zboss.Address.Compress.{ieee_addr_decompress-ieee_addr_compress}
use zboss.Address.Tick.{clock_tick-SameEntries}
use zboss.Address.ByIeee.{maybe_lock-some}
use zboss.Address.Entries.{
  no_short, clock_tick, sort_in, fill_entry, add_at, addr_add, address_delete, Outcome, resolve,
  move_short, set_entry, update_found, lock_outcome, update_compressed, address_update,
}

-- The entry has both addresses, and the manufacturers are those of `s`.
record Both (s : Addresses) (c : Compressed) (short_addr ref : ℕ) (t : Addresses) : Type 0 where
  ieee : t.ieee_addr ref ≡ c
  short : t.shorts.addr ref ≡ short_addr
  manufacturers : t.device_manufacturer ≡ s.device_manufacturer

sort_in-addr :
    (used : Bool) (shorts : Shorts) (i short_addr : ℕ)
    → (sort_in used shorts i short_addr).addr i ≡ short_addr
unfolding sort_in add_short_sorted del_short_sorted
sort_in-addr used shorts i short_addr = elim (Bool-cases (short_addr == no_short)) [
  | inl none_given ↦ rw none_given (update_self shorts.addr i short_addr)
  | inr some_short ↦ elim (Bool-cases used) [
    | inl u ↦ rw (some_short, u) (update_self shorts.addr i short_addr)
    | inr f ↦ rw (some_short, f) (update_self shorts.addr i short_addr)
  ]
]

move_short-addr :
    (shorts : Shorts) (ref short_address : ℕ)
    → (move_short shorts ref short_address).addr ref ≡ short_address
unfolding move_short add_short_sorted del_short_sorted
move_short-addr shorts ref short_address = elim (Bool-cases (shorts.addr ref == short_address)) [
  | inl same ↦ rw same (ground arith)
  | inr other ↦
      let dropped = if shorts.addr ref == no_short then shorts else del_short_sorted shorts ref in
      rw other (update_self dropped.addr ref short_address)
]

module _ (s : Addresses) (c : Compressed) (short_addr : ℕ) where
  fill_entry-Both : (i : ℕ) → Both s c short_addr i (fill_entry (clock_tick s) c short_addr i)
  unfolding fill_entry
  fill_entry-Both i =
      let t = clock_tick s in
      record {
        ieee = update_self t.ieee_addr i c;
        short = sort_in-addr (t.used i) t.shorts i short_addr;
        manufacturers = (clock_tick-SameEntries s).device_manufacturer;
      }

  -- The code, the reference and the table of a call are known: so are the addresses.
  handed :
      (i ref : ℕ) (u t : Addresses)
      → Both s c short_addr i u
      → some i ≡ some ref
      → u ≡ t
      → Both s c short_addr ref t
  handed i ref u t b at same =
      subst (λ x. Both s c short_addr ref x) same
        (subst (λ r. Both s c short_addr r u) (some-inj at) b)

  add_at-Both :
      (o : Option ℕ) (ref : ℕ) (t : Addresses)
      → add_at s c short_addr o ≡ (ok, some ref, t)
      → Both s c short_addr ref t
  unfolding add_at
  add_at-Both none ref t e = cc
  add_at-Both (some i) ref t e =
      handed i ref _ t (fill_entry-Both i) (ap (λ r. r.1) e) (ap (λ r. r.2) e)

  set_entry-Both :
      (i : ℕ) (u : Addresses) (ref : ℕ) (t : Addresses)
      → u.device_manufacturer ≡ s.device_manufacturer
      → set_entry c short_addr (some (i, u)) ≡ some (ok, some ref, t)
      → Both s c short_addr ref t
  unfolding set_entry
  set_entry-Both i u ref t same e =
      let q = some-inj e in
      handed i ref _ t
        (record {
          ieee = update_self u.ieee_addr i c;
          short = move_short-addr u.shorts i short_addr;
          manufacturers = same;
        })
        (ap (λ r. r.1) q) (ap (λ r. r.2) q)

  -- An entry that has to go takes nothing else with it.
  resolved :
      (r r' ref : ℕ) (t : Addresses)
      → set_entry c short_addr (resolve s r r') ≡ some (ok, some ref, t)
      → Both s c short_addr ref t
  unfolding resolve address_delete
  resolved r r' ref t e = elim (Bool-cases (r == r')) [
    | inl same ↦ set_entry-Both r s ref t refl (rw same at e)
    | inr differ ↦ elim (Bool-cases (s.lock_cnt r == 0)) [
      | inl free ↦ set_entry-Both r' (address_delete s r) ref t refl (rw (differ, free) at e)
      | inr held ↦ elim (Bool-cases (s.lock_cnt r' == 0)) [
        | inl free ↦
            set_entry-Both r (address_delete s r') ref t refl (rw (differ, held, free) at e)
        | inr both ↦
            let bad : set_entry c short_addr none ≡ some (ok, some ref, t) =
              rw (differ, held, both) at e in
            stopped ref t bad
      ]
    ]
  ]
    where
      stopped :
          (ref : ℕ) (t : Addresses)
          → set_entry c short_addr none ≡ some (ok, some ref, t)
          → Both s c short_addr ref t
      stopped ref t bad = unfold set_entry in cc

  update_found-Both :
      (o o' : Option ℕ) (ref : ℕ) (t : Addresses)
      → update_found s c short_addr o o' ≡ some (ok, some ref, t)
      → Both s c short_addr ref t
  unfolding update_found addr_add
  update_found-Both (some r) (some r') ref t e = resolved r r' ref t e
  update_found-Both (some r) none ref t e = set_entry-Both r s ref t refl e
  update_found-Both none (some r') ref t e = set_entry-Both r' s ref t refl e
  update_found-Both none none ref t e = add_at-Both _ ref t (some-inj e)

module _ (s : Addresses) (c : Compressed) (short_addr : ℕ) (lock : Bool) (ref : ℕ) where
  unlocked :
      (o : Outcome) (s' : Addresses)
      → lock_outcome lock o ≡ some (ok, some ref, s')
      → ((t : Addresses) → o ≡ some (ok, some ref, t) → Both s c short_addr ref t)
      → Both s c short_addr ref s'
  unfolding lock_outcome
  unlocked none s' e both = ground arith
  unlocked (some (ret, o, t)) s' e both =
      let (code, given, same) = maybe_lock-some lock (ret, o, t) ref s' e in
      let b = both t (ap₂ (λ x y. some (x, y, t)) code given) in
      record {
        ieee = ap (λ f. f ref) same.ieee_addr ∙ b.ieee;
        short = ap (λ x. x.addr ref) same.shorts ∙ b.short;
        manufacturers = same.device_manufacturer ∙ b.manufacturers;
      }

updated :
    (s : Addresses) (ieee : List ℕ) (short_addr : ℕ) (lock : Bool) (ref : ℕ) (s' : Addresses)
    → length ieee ≡ 8
    → (o : Option (Compressed × Addresses)) → ieee_addr_compress s ieee ≡ o
    → update_compressed short_addr lock o ≡ some (ok, some ref, s')
    → address_by_ref s' ref ≡ (ieee, short_addr)
unfolding update_compressed address_by_ref ieee_addr_decompress
updated s ieee short_addr lock ref s' size none made e = ground arith
updated s ieee short_addr lock ref s' size (some (c, t)) made e =
    let b =
      unlocked t c short_addr lock ref _ s' e (
        update_found-Both t c short_addr (short_search t.shorts short_addr) (ieee_search t c)
          ref) in
    let back = (ieee_addr_decompress-ieee_addr_compress s ieee c t size made).0 in
    ap₂ (λ x y. (x, y))
      (ap₂ (λ m d. m d.dev_manufacturer ++ d.device_id) b.manufacturers b.ieee ∙ back) b.short

-- When `zb_address_update` is given a long address of eight octets and returns RET_OK and a reference,
-- whether it found the entry by either address, by both, deleted one of two entries or added one, then
-- `zb_address_by_ref` gives both addresses back for the reference.
pub address_by_ref-address_update :
    (s : Addresses) (ieee : List ℕ) (short_addr : ℕ) (lock : Bool) (ref : ℕ) (s' : Addresses)
    → length ieee ≡ 8
    → address_update s ieee short_addr lock ≡ some (ok, some ref, s')
    → address_by_ref s' ref ≡ (ieee, short_addr)
address_by_ref-address_update s ieee short_addr lock ref s' size e =
    updated s ieee short_addr lock ref s' size (ieee_addr_compress s ieee) refl
      (unfold address_update in e)
