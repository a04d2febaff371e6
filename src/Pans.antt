-- ===== src/Pans.antt =====
-- The table of PAN identifiers of common/zb_address.c, a hash table with open addressing: `long_panid`
-- and `short_panid` are the fields of `pan_map`, `used_pan_addr` the bit vector, by index.
pub mod Probe
pub mod Free
pub mod Roundtrip
pub mod Others
use zboss.Base.{
  ℕ, zero, suc, ◌+◌, ◌*◌, ◌%◌, ◌^◌, Bool, true, false, ◌&&◌, ◌==◌, if◌then◌else◌, List, [], ◌∷◌,
  Option, none, some, get_or, bit_and, update,
}
use zboss.Alarm.{Ret, ok, overflow, not_found, already_exists}

pub record Pans : Type 0 where
  pub used_pan_addr : ℕ → Bool
  pub long_panid : ℕ → List ℕ
  pub short_panid : ℕ → ℕ

-- ZB_PANID_TABLE_SIZE
abbrev pub panid_table_size : ℕ
panid_table_size = 8

-- ZB_HASH_FUNC_STEP, in 32-bit unsigned arithmetic
unfoldable pub hash_step : ℕ → ℕ → ℕ
hash_step hash v = (hash * 32 + hash + v) % 2 ^ 32

-- ZB_4INT_HASH_FUNC
unfoldable pub hash_four : ℕ → ℕ → ℕ → ℕ → ℕ
hash_four a b c d = bit_and (hash_step (hash_step (hash_step (hash_step 5381 a) b) c) d) 0x7fffffff

-- ZB_ADDRESS_PAN_ID_HASH
unfoldable pub pan_id_hash : List ℕ → ℕ
pan_id_hash pan_id =
    hash_four (get_or pan_id 0 0) (get_or pan_id 2 0) (get_or pan_id 4 0) (get_or pan_id 6 0)
    % panid_table_size

-- ZB_EXTPANID_CMP
unfoldable pub extpanid_cmp : List ℕ → List ℕ → Bool
extpanid_cmp [] [] = true
extpanid_cmp (x ∷ xs) (y ∷ ys) = (x == y) && extpanid_cmp xs ys
extpanid_cmp [] (y ∷ ys) = false
extpanid_cmp (x ∷ xs) [] = false

-- `i` is in use for the identifier.
unfoldable pub has_pan_id : Pans → List ℕ → ℕ → Bool
has_pan_id s pan_id i = s.used_pan_addr i && extpanid_cmp (s.long_panid i) pan_id

-- The do-while loop of `zb_address_set_pan_id`: the index found, and the free one seen last.
unfoldable pub set_loop : ℕ → Pans → List ℕ → ℕ → ℕ → Option ℕ → Option ℕ × Option ℕ
set_loop zero s pan_id h_i i free_i = (none, free_i)
set_loop (suc k) s pan_id h_i i free_i =
    let free_i' = if s.used_pan_addr i then free_i else some i in
    let next = (i + 1) % panid_table_size in
    let rest = set_loop k s pan_id h_i next free_i' in
    if has_pan_id s pan_id i
    then (some i, free_i)
    else if next == h_i
    then (none, free_i')
    else rest

-- What `zb_address_set_pan_id` does with the outcome of its loop.
unfoldable pub settle : Pans → ℕ → List ℕ → Option ℕ → Option ℕ → Ret × Option ℕ × Pans
settle s short_pan_id pan_id (some i) free_i = (already_exists, some i, s)
settle s short_pan_id pan_id none none = (overflow, none, s)
settle s short_pan_id pan_id none (some free_i) = (
  ok,
  some free_i,
  record {
    used_pan_addr = update s.used_pan_addr free_i true;
    long_panid = update s.long_panid free_i pan_id;
    short_panid = update s.short_panid free_i short_pan_id;
  },
)

-- `zb_address_set_pan_id`: the code returned, the reference stored, if any, and the table.
unfoldable pub set_pan_id : Pans → ℕ → List ℕ → Ret × Option ℕ × Pans
set_pan_id s short_pan_id pan_id =
    let h_i = pan_id_hash pan_id in
    let (found, free_i) = set_loop 8 s pan_id h_i h_i none in
    settle s short_pan_id pan_id found free_i

-- The do-while loop of `zb_address_get_pan_id_ref`.
unfoldable pub get_loop : ℕ → Pans → List ℕ → ℕ → ℕ → Option ℕ
get_loop zero s pan_id h_i i = none
get_loop (suc k) s pan_id h_i i =
    let next = (i + 1) % panid_table_size in
    let rest = get_loop k s pan_id h_i next in
    if has_pan_id s pan_id i then some i else if next == h_i then none else rest

-- `zb_address_get_pan_id_ref`: none for RET_NOT_FOUND.
unfoldable pub get_pan_id_ref : Pans → List ℕ → Option ℕ
get_pan_id_ref s pan_id = let h_i = pan_id_hash pan_id in get_loop 8 s pan_id h_i h_i
