-- ===== src/Pans/Others.antt =====
-- Storing one PAN identifier does not bear on the search for another.
use zboss.Base.{
  ℕ, zero, suc, ◌+◌, ◌%◌, ◌<◌, ◌≡◌, refl, arith, true, false, ◌==◌, Bool-cases, inl, inr, List,
  Option, none, some, update_self,
}
use zboss.Pans.{
  Pans, panid_table_size, pan_id_hash, extpanid_cmp, has_pan_id, settle, set_pan_id, get_loop,
  get_pan_id_ref,
}
use zboss.Pans.Probe.{pan_id_hash-lt}
use zboss.Pans.Roundtrip.{stored, stored-other, loop_out, loop_free}

get_loop-same :
    (s s' : Pans) (pan : List ℕ) (h k i : ℕ)
    → ((j : ℕ) → j < panid_table_size → has_pan_id s' pan j ≡ has_pan_id s pan j)
    → i < panid_table_size
    → get_loop k s' pan h i ≡ get_loop k s pan h i
unfolding get_loop
get_loop-same s s' pan h zero i same below = refl
get_loop-same s s' pan h (suc k) i same below =
    let next = (i + 1) % panid_table_size in
    rw (same i below, get_loop-same s s' pan h k next same (omega arith)) refl

module _ (s : Pans) (short_pan_id : ℕ) (pan_id pan : List ℕ)
    (differ : extpanid_cmp pan_id pan ≡ false) where
  stored-has :
      (f j : ℕ)
      → s.used_pan_addr f ≡ false
      → has_pan_id (stored s short_pan_id pan_id f) pan j ≡ has_pan_id s pan j
  unfolding has_pan_id
  stored-has f j unused = elim (Bool-cases (j == f)) [
    | inr apart ↦ stored-other s short_pan_id pan_id pan f j (ground arith)
    | inl at ↦
        let same : j ≡ f = ground arith in
        rw
          (
            same,
            update_self s.used_pan_addr f true,
            update_self s.long_panid f pan_id,
            differ,
            unused,
          )
          refl
  ]

  settled_others :
      (found free : Option ℕ)
      → (loop_out s short_pan_id pan_id).1 ≡ free
      → get_pan_id_ref (settle s short_pan_id pan_id found free).2 pan ≡ get_pan_id_ref s pan
  unfolding settle get_pan_id_ref
  settled_others (some i) free e = refl
  settled_others none none e = refl
  settled_others none (some f) e =
      let (_, unused) = loop_free s short_pan_id pan_id f e in
      get_loop-same s (stored s short_pan_id pan_id f) pan (pan_id_hash pan) 8 (pan_id_hash pan)
        (λ j below. stored-has f j unused) (pan_id_hash-lt pan)

  -- Whatever `zb_address_set_pan_id` does for one identifier, `zb_address_get_pan_id_ref` answers as
  -- before for every other.
  pub set_pan_id-others :
      get_pan_id_ref (set_pan_id s short_pan_id pan_id).2 pan ≡ get_pan_id_ref s pan
  unfolding set_pan_id
  set_pan_id-others =
      settled_others (loop_out s short_pan_id pan_id).0 (loop_out s short_pan_id pan_id).1 refl
