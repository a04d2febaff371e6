-- ===== src/Tests/Pans.antt =====
-- A concrete table of PAN identifiers.
use zboss.Base.{ℕ, ◌≡◌, refl, true, false, ◌==◌, if◌then◌else◌, List, [], ◌∷◌, some}
use zboss.Alarm.{overflow}
use zboss.Pans.{
  Pans, has_pan_id, set_pan_id, get_pan_id_ref, set_loop, settle, pan_id_hash, hash_four, hash_step,
  extpanid_cmp,
}
use zboss.Pans.Roundtrip.{get_pan_id_ref-set_pan_id}

abbrev home : List ℕ
home = 1 ∷ 2 ∷ 3 ∷ 4 ∷ 5 ∷ 6 ∷ 7 ∷ 8 ∷ []

abbrev office : List ℕ
office = 8 ∷ 7 ∷ 6 ∷ 5 ∷ 4 ∷ 3 ∷ 2 ∷ 1 ∷ []

-- Every place in use but the first one.
abbrev crowded : Pans
crowded = record {
  used_pan_addr = λ i. if i == 0 then false else true;
  long_panid = λ i. i ∷ [];
  short_panid = λ i. i;
}

abbrev full : Pans
full = record crowded { used_pan_addr = λ i. true }

home_ref : (set_pan_id crowded 7 home).1 ≡ some 0
unfolding set_pan_id set_loop settle has_pan_id pan_id_hash hash_four hash_step extpanid_cmp
home_ref = refl

full_overflow : (set_pan_id full 7 home).0 ≡ overflow
unfolding set_pan_id set_loop settle has_pan_id pan_id_hash hash_four hash_step extpanid_cmp
full_overflow = refl

get_pan_id_ref-set_pan_id_example : get_pan_id_ref (set_pan_id crowded 7 home).2 home ≡ some 0
get_pan_id_ref-set_pan_id_example = get_pan_id_ref-set_pan_id crowded 7 home 0 home_ref

home-office : extpanid_cmp home office ≡ false
unfolding extpanid_cmp
home-office = refl
