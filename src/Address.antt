-- ===== src/Address.antt =====
-- The address translation table of common/zb_address.c: `addr_map`, an open hash by the compressed
-- long address, the table of manufacturers by which long addresses are compressed, and the sorted
-- table of short addresses, which is that of Shorts. Fields of `addr_map` and `dev_manufacturer` are
-- functions of the index.
pub mod Entries
pub mod Manufacturers
pub mod Compress
pub mod Search
pub mod Tick
pub mod ByIeee
pub mod Update
use zboss.Base.{
  ℕ, zero, suc, ◌+◌, ◌-◌, ◌%◌, Bool, true, false, ◌&&◌, ◌==◌, if◌then◌else◌, List, [], ◌∷◌, ◌++◌,
  Option, none, some, get_or, take, drop, update,
}
use zboss.Shorts.{Shorts}
use zboss.Pans.{hash_four}

-- `zb_ieee_addr_compressed_t`
pub record Compressed : Type 0 where
  pub dev_manufacturer : ℕ
  pub device_id : List ℕ

-- `zb_addr_globals_t`, without the part for PAN identifiers; the field `addr` of `addr_map` is in
-- `shorts`.
pub record Addresses : Type 0 where
  pub used_manufacturer : ℕ → Bool
  pub device_manufacturer : ℕ → List ℕ
  pub ieee_addr : ℕ → Compressed
  pub used : ℕ → Bool
  pub lock_cnt : ℕ → ℕ
  pub clock : ℕ → Bool
  pub shorts : Shorts
  pub n_elements : ℕ
  pub clock_i : ℕ

-- ZB_DEV_MANUFACTORER_TABLE_SIZE
abbrev pub dev_manufactorer_table_size : ℕ
dev_manufactorer_table_size = 16

-- ZB_IEEE_ADDR_TABLE_SIZE
abbrev pub ieee_addr_table_size : ℕ
ieee_addr_table_size = 101

-- `!ZB_MEMCMP(one, two, n)` of two strings of `n` octets
unfoldable pub same_octets : List ℕ → List ℕ → Bool
same_octets [] [] = true
same_octets (x ∷ xs) (y ∷ ys) = (x == y) && same_octets xs ys
same_octets [] (y ∷ ys) = false
same_octets (x ∷ xs) [] = false

-- The place of `dev_manufacturer` is that of the address's manufacturer.
unfoldable pub has_manufacturer : Addresses → List ℕ → ℕ → Bool
has_manufacturer s address i =
    s.used_manufacturer i && same_octets (s.device_manufacturer i) (take 3 address)

-- The loop of `zb_ieee_addr_compress`, with the rounds left: where it stops, and the free place seen
-- last.
unfoldable pub compress_loop : ℕ → Addresses → List ℕ → ℕ → ℕ → ℕ × ℕ
compress_loop zero s address i free_i = (i, free_i)
compress_loop (suc k) s address i free_i =
    let rest = compress_loop k s address (i + 1) (if s.used_manufacturer i then free_i else i) in
    if has_manufacturer s address i then (i, free_i) else rest

-- The place that `zb_ieee_addr_compress` takes for the manufacturer.
unfoldable pub manufacturer_place : Addresses → List ℕ → ℕ
manufacturer_place s address =
    let (i, free_i) =
      compress_loop dev_manufactorer_table_size s address 0 dev_manufactorer_table_size in
    if i == dev_manufactorer_table_size then free_i else i

-- `zb_ieee_addr_compress`; none where the assertion fails, since there is no free place.
unfoldable pub ieee_addr_compress : Addresses → List ℕ → Option (Compressed × Addresses)
ieee_addr_compress s address =
    let i = manufacturer_place s address in
    if i == dev_manufactorer_table_size
    then none
    else some (
      record { dev_manufacturer = i; device_id = take 5 (drop 3 address) },
      record s {
        used_manufacturer = update s.used_manufacturer i true;
        device_manufacturer = update s.device_manufacturer i (take 3 address);
      },
    )

-- ZB_ADDRESS_DECOMPRESS, `zb_ieee_addr_decompress`
unfoldable pub ieee_addr_decompress : Addresses → Compressed → List ℕ
ieee_addr_decompress s c = s.device_manufacturer c.dev_manufacturer ++ c.device_id

-- `zb_address_compressed_cmp`
unfoldable pub compressed_cmp : Compressed → Compressed → Bool
compressed_cmp one two =
    (one.dev_manufacturer == two.dev_manufacturer) && same_octets one.device_id two.device_id

-- ZB_ADDRESS_COMPRESSED_IEEE_HASH_MACRO, `zb_address_compressed_ieee_hash`
unfoldable pub compressed_ieee_hash : Compressed → ℕ
compressed_ieee_hash c =
    hash_four (get_or c.device_id 0 0) (get_or c.device_id 2 0) (get_or c.device_id 3 0)
      (get_or c.device_id 4 0)
    % ieee_addr_table_size

-- The entry is in use for the long address.
unfoldable pub has_ieee : Addresses → Compressed → ℕ → Bool
has_ieee s c i = s.used i && compressed_cmp (s.ieee_addr i) c

-- The loop of `ieee_search`, with the rounds left.
unfoldable pub ieee_loop : ℕ → Addresses → Compressed → ℕ → Option ℕ
ieee_loop zero s c i = none
ieee_loop (suc k) s c i =
    let rest = ieee_loop k s c ((i + 1) % ieee_addr_table_size) in
    if has_ieee s c i then some i else rest

-- `ieee_search`: the reference found, or none for ZB_FALSE.
unfoldable pub ieee_search : Addresses → Compressed → Option ℕ
ieee_search s c = ieee_loop ieee_addr_table_size s c (compressed_ieee_hash c)

-- `zb_address_lock`, whose counter has 4 bits; none where the assertion fails.
unfoldable pub address_lock : Addresses → ℕ → Option Addresses
address_lock s ref =
    let cnt = (s.lock_cnt ref + 1) % 16 in
    if cnt == 0
    then none
    else some (record s { lock_cnt = update s.lock_cnt ref cnt; clock = update s.clock ref true })

-- `zb_address_unlock`; none where the assertion fails.
unfoldable pub address_unlock : Addresses → ℕ → Option Addresses
address_unlock s ref =
    if s.lock_cnt ref == 0
    then none
    else some (record s { lock_cnt = update s.lock_cnt ref (s.lock_cnt ref - 1) })

-- `zb_address_short_by_ref`
unfoldable pub address_short_by_ref : Addresses → ℕ → ℕ
address_short_by_ref s ref = s.shorts.addr ref

-- `zb_address_ieee_by_ref`
unfoldable pub address_ieee_by_ref : Addresses → ℕ → List ℕ
address_ieee_by_ref s ref = ieee_addr_decompress s (s.ieee_addr ref)

-- `zb_address_by_ref`: the long address and the short one.
unfoldable pub address_by_ref : Addresses → ℕ → List ℕ × ℕ
address_by_ref s ref = (ieee_addr_decompress s (s.ieee_addr ref), s.shorts.addr ref)
