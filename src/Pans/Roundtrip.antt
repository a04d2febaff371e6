-- ===== src/Pans/Roundtrip.antt =====
-- What `zb_address_set_pan_id` stores, `zb_address_get_pan_id_ref` finds.
use zboss.Base.{
  ℕ, ◌+◌, ◌-◌, ◌%◌, ◌<◌, ◌≡◌, ◌≢◌, refl, sym, ap, ◌∙◌, arith, Bool, true, false, ◌==◌, Bool-cases,
  inl, inr, List, [], ◌∷◌, Option, none, some, update, update_self, update_ne,
}
use zboss.Alarm.{overflow}
use zboss.Pans.{
  Pans, panid_table_size, pan_id_hash, extpanid_cmp, has_pan_id, set_loop, settle, set_pan_id,
  get_loop, get_pan_id_ref,
}
use zboss.Pans.Probe.{pan_id_hash-lt, set_loop-get_loop, get_loop-some, get_loop-none}
use zboss.Pans.Free.{set_loop-free, set_loop-full, some-none}

extpanid_cmp_refl : (pan_id : List ℕ) → extpanid_cmp pan_id pan_id ≡ true
unfolding extpanid_cmp
extpanid_cmp_refl [] = refl
extpanid_cmp_refl (x ∷ xs) = ground (arith, extpanid_cmp_refl xs)

-- The table with the identifier in the free place `f`.
abbrev pub stored : Pans → ℕ → List ℕ → ℕ → Pans
stored s short pan_id f = record {
  used_pan_addr = update s.used_pan_addr f true;
  long_panid = update s.long_panid f pan_id;
  short_panid = update s.short_panid f short;
}

stored_self :
    (s : Pans) (short : ℕ) (pan_id : List ℕ) (f : ℕ)
    → has_pan_id (stored s short pan_id f) pan_id f ≡ true
unfolding has_pan_id
stored_self s short pan_id f =
    rw (update_self s.used_pan_addr f true, update_self s.long_panid f pan_id)
      (extpanid_cmp_refl pan_id)

pub stored-other :
    (s : Pans) (short : ℕ) (pan_id pan : List ℕ) (f i : ℕ)
    → i ≢ f
    → has_pan_id (stored s short pan_id f) pan i ≡ has_pan_id s pan i
unfolding has_pan_id
stored-other s short pan_id pan f i ne =
    rw (update_ne s.used_pan_addr f i true ne, update_ne s.long_panid f i pan_id ne) refl

clash : (b : Bool) → b ≡ true → b ≡ false → ⊥
clash b h k = cc

-- Every place is some number of steps behind the start.
steps :
    (h i : ℕ)
    → h < panid_table_size
    → i < panid_table_size
    → (h + (i + panid_table_size - h) % panid_table_size) % panid_table_size ≡ i
steps h i h_in i_in = omega arith

absent :
    (s : Pans) (pan_id : List ℕ) (i : ℕ)
    → get_pan_id_ref s pan_id ≡ none
    → i < panid_table_size
    → has_pan_id s pan_id i ≡ false
unfolding get_pan_id_ref
absent s pan_id i gone below =
    let h = pan_id_hash pan_id in
    let h_in = pan_id_hash-lt pan_id in
    let start : (h + 0) % panid_table_size ≡ h = omega arith in
    ap (has_pan_id s pan_id) (sym (steps h i h_in below))
    ∙ get_loop-none s pan_id h h_in 8 0 (omega arith) (omega arith)
        (ap (get_loop 8 s pan_id h) start ∙ gone) ((i + panid_table_size - h) % panid_table_size)
        (omega arith) (omega arith)

found_same :
    (s : Pans) (pan_id : List ℕ) (f : ℕ)
    → ((i : ℕ) → i ≢ f → i < panid_table_size → has_pan_id s pan_id i ≡ false)
    → (r : ℕ) → get_pan_id_ref s pan_id ≡ some r
    → r ≡ f
unfolding get_pan_id_ref
found_same s pan_id f others r e =
    let h_in = pan_id_hash-lt pan_id in
    let (r_in, has) =
      get_loop-some s pan_id (pan_id_hash pan_id) h_in 8 (pan_id_hash pan_id) r h_in e in
    elim (Bool-cases (r == f)) [
      | inl at ↦ ground arith
      | inr apart ↦
          let ne : r ≢ f = ground arith in
          absurd (clash (has_pan_id s pan_id r) has (others r ne r_in))
    ]

-- A search finds the place that has the identifier, if it is the only one.
finds :
    (s : Pans) (pan_id : List ℕ) (f : ℕ)
    → f < panid_table_size
    → has_pan_id s pan_id f ≡ true
    → ((i : ℕ) → i ≢ f → i < panid_table_size → has_pan_id s pan_id i ≡ false)
    → get_pan_id_ref s pan_id ≡ some f
finds s pan_id f below own others = decided (get_pan_id_ref s pan_id) refl
  where
    decided : (out : Option ℕ) → get_pan_id_ref s pan_id ≡ out → get_pan_id_ref s pan_id ≡ some f
    decided (some r) e = e ∙ ap some (found_same s pan_id f others r e)
    decided none e = absurd (clash (has_pan_id s pan_id f) own (absent s pan_id f e below))

module _ (s : Pans) (short_pan_id : ℕ) (pan_id : List ℕ) where
  abbrev pub loop_out : Option ℕ × Option ℕ
  loop_out = set_loop 8 s pan_id (pan_id_hash pan_id) (pan_id_hash pan_id) none

  loop_found : loop_out.0 ≡ get_pan_id_ref s pan_id
  unfolding get_pan_id_ref
  loop_found =
      let h = pan_id_hash pan_id in set_loop-get_loop s pan_id h (pan_id_hash-lt pan_id) 8 h none

  pub loop_free :
      (f : ℕ) → loop_out.1 ≡ some f → (f < panid_table_size) × (s.used_pan_addr f ≡ false)
  loop_free f e =
      let h = pan_id_hash pan_id in
      let h_in = pan_id_hash-lt pan_id in
      elim (set_loop-free s pan_id h h_in 8 h f none h_in e) [
        | inl before ↦ absurd (some-none f (sym before))
        | inr free ↦ free
      ]

  settled :
      (found free : Option ℕ) (r : ℕ)
      → loop_out.0 ≡ found
      → loop_out.1 ≡ free
      → (settle s short_pan_id pan_id found free).1 ≡ some r
      → get_pan_id_ref (settle s short_pan_id pan_id found free).2 pan_id ≡ some r
  unfolding settle
  settled (some i) free r e0 e1 e = sym loop_found ∙ e0 ∙ e
  settled none none r e0 e1 e = absurd (some-none r (sym e))
  settled none (some f) r e0 e1 e =
      let (below, unused) = loop_free f e1 in
      finds (stored s short_pan_id pan_id f) pan_id f below (stored_self s short_pan_id pan_id f)
        (λ i ne i_in.
          stored-other s short_pan_id pan_id pan_id f i ne
          ∙ absent s pan_id i (sym loop_found ∙ e0) i_in)
      ∙ e

  -- When `zb_address_set_pan_id` hands out a reference, `zb_address_get_pan_id_ref` on the table that it
  -- leaves finds that reference for the identifier.
  pub get_pan_id_ref-set_pan_id :
      (r : ℕ)
      → (set_pan_id s short_pan_id pan_id).1 ≡ some r
      → get_pan_id_ref (set_pan_id s short_pan_id pan_id).2 pan_id ≡ some r
  unfolding set_pan_id
  get_pan_id_ref-set_pan_id r e = settled loop_out.0 loop_out.1 r refl refl e

  overflown :
      (found free : Option ℕ)
      → loop_out.0 ≡ found
      → loop_out.1 ≡ free
      → (settle s short_pan_id pan_id found free).0 ≡ overflow
      → (loop_out.0 ≡ none) × (loop_out.1 ≡ none)
  unfolding settle
  overflown (some i) free e0 e1 e = ground arith
  overflown none (some f) e0 e1 e = ground arith
  overflown none none e0 e1 e = (e0, e1)

  -- `zb_address_set_pan_id` returns RET_OVERFLOW only when all places are in use and none has the
  -- identifier.
  pub set_pan_id-overflow :
      (i : ℕ)
      → (set_pan_id s short_pan_id pan_id).0 ≡ overflow
      → i < panid_table_size
      → (s.used_pan_addr i ≡ true) × (has_pan_id s pan_id i ≡ false)
  unfolding set_pan_id
  set_pan_id-overflow i e below =
      let h = pan_id_hash pan_id in
      let h_in = pan_id_hash-lt pan_id in
      let (gone, full) = overflown loop_out.0 loop_out.1 refl refl e in
      let start : (h + 0) % panid_table_size ≡ h = omega arith in
      let (_, all) =
        set_loop-full s pan_id h h_in 8 0 none (omega arith) (omega arith)
          (ap (λ x. (set_loop 8 s pan_id h x none).0) start ∙ gone)
          (ap (λ x. (set_loop 8 s pan_id h x none).1) start ∙ full) in
      (
        ap s.used_pan_addr (sym (steps h i h_in below))
            ∙ all ((i + panid_table_size - h) % panid_table_size) (omega arith) (omega arith),
        absent s pan_id i (sym loop_found ∙ gone) below,
      )
