-- ===== src/Address/Entries.antt =====
-- The operations of common/zb_address.c that add, change and delete entries of the address table.
-- None stands for an assertion that fails.
use zboss.Base.{
  ℕ, zero, suc, ◌+◌, ◌-◌, ◌%◌, ◌^◌, Bool, true, false, not, ◌&&◌, ◌==◌, ltb, if◌then◌else◌, List,
  [], ◌∷◌, Option, none, some, update,
}
use zboss.Alarm.{Ret, ok, overflow, not_found}
use zboss.Shorts.{Shorts, short_search, add_short_sorted}
use zboss.Shorts.Delete.{del_short_sorted}
use zboss.Address.{
  Compressed, Addresses, ieee_addr_table_size, ieee_addr_compress, ieee_addr_decompress,
  compressed_ieee_hash, ieee_search, address_lock,
}

-- `(zb_uint16_t)~0`
abbrev pub no_short : ℕ
no_short = 65535

-- ZB_BZERO of a compressed address
abbrev pub zero_ieee : Compressed
zero_ieee = record { dev_manufacturer = 0; device_id = 0 ∷ 0 ∷ 0 ∷ 0 ∷ 0 ∷ [] }

-- One round of a loop of `clock_tick` passes this entry.
unfoldable pub tick_past : Addresses → Addresses
tick_past s = record s { clock_i = s.clock_i + 1 }

-- One loop of `clock_tick`, up to `bound`, with the rounds left: the entries in use that it has
-- counted, and whether it found one that is not locked.
unfoldable pub tick_loop : ℕ → ℕ → Addresses → ℕ → Addresses × ℕ × Bool
tick_loop zero bound s cnt = (s, cnt, false)
tick_loop (suc k) bound s cnt =
    let i = s.clock_i in
    let rest = tick_loop k bound (tick_past s) (if s.used i then cnt + 1 else cnt) in
    if ltb i bound && ltb cnt s.n_elements
    then if s.used i && s.lock_cnt i == 0
      then (record s { clock_i = i + 1; clock = update s.clock i false }, cnt + 1, true)
      else rest
    else (s, cnt, false)

-- The second loop of `clock_tick`, from the start of the table.
unfoldable pub tick_again : ℕ → Addresses × ℕ × Bool → Addresses
tick_again limit (s, cnt, found) =
    if not found && ltb cnt s.n_elements
    then (tick_loop ieee_addr_table_size limit (record s { clock_i = 0 }) cnt).0
    else s

-- `clock_tick`
unfoldable pub clock_tick : Addresses → Addresses
clock_tick s = tick_again s.clock_i (tick_loop ieee_addr_table_size ieee_addr_table_size s 0)

-- The do-while loop of `addr_add`, with the rounds left: the first entry not in use.
unfoldable pub free_loop : ℕ → Addresses → ℕ → ℕ → Option ℕ
free_loop zero s i_end i = none
free_loop (suc k) s i_end i =
    let next = (i + 1) % ieee_addr_table_size in
    let rest = free_loop k s i_end next in
    if not (s.used i) then some i else if next == i_end then none else rest

-- The sorted table, as `addr_add` leaves it for an entry with a new short address.
unfoldable pub sort_in : Bool → Shorts → ℕ → ℕ → Shorts
sort_in used shorts i short_addr =
    let stored = record shorts { addr = update shorts.addr i short_addr } in
    if short_addr == no_short
    then stored
    else add_short_sorted (if used then del_short_sorted stored i else stored) i short_addr

-- The rest of `addr_add` on the entry found.
unfoldable pub fill_entry : Addresses → Compressed → ℕ → ℕ → Addresses
fill_entry s c short_addr i = record s {
  clock = update s.clock i true;
  ieee_addr = update s.ieee_addr i c;
  shorts = sort_in (s.used i) s.shorts i short_addr;
  n_elements = (s.n_elements + (if s.used i then 0 else 1)) % 2 ^ 32;
  used = update s.used i true;
}

unfoldable pub add_at : Addresses → Compressed → ℕ → Option ℕ → Ret × Option ℕ × Addresses
add_at s c short_addr none = (overflow, none, s)
add_at s c short_addr (some i) = (ok, some i, fill_entry (clock_tick s) c short_addr i)

-- `addr_add`; none for a NULL address.
unfoldable pub addr_add : Addresses → Option Compressed → ℕ → Ret × Option ℕ × Addresses
addr_add s none short_addr = add_at s zero_ieee short_addr (free_loop ieee_addr_table_size s 0 0)
addr_add s (some c) short_addr =
    let i = compressed_ieee_hash c in add_at s c short_addr (free_loop ieee_addr_table_size s i i)

-- `zb_address_delete`
unfoldable pub address_delete : Addresses → ℕ → Addresses
address_delete s ref = record s {
  shorts = del_short_sorted s.shorts ref;
  used = update s.used ref false;
  n_elements = (s.n_elements + 2 ^ 32 - 1) % 2 ^ 32;
}

-- The result of a call that may lock the entry it hands out.
abbrev pub Outcome : Type 0
Outcome = Option (Ret × Option ℕ × Addresses)

unfoldable pub locked : ℕ → Option Addresses → Outcome
locked ref none = none
locked ref (some s) = some (ok, some ref, s)

-- `if (lock && ret == RET_OK) zb_address_lock(*ref_p)`
unfoldable pub maybe_lock : Bool → Ret × Option ℕ × Addresses → Outcome
maybe_lock true (ok, some ref, s) = locked ref (address_lock s ref)
maybe_lock true (ret, ref, s) = some (ret, ref, s)
maybe_lock false (ret, ref, s) = some (ret, ref, s)

-- The middle of `zb_address_by_ieee` and `zb_address_by_short`: the entry found is marked, or one is
-- added on request.
unfoldable pub found_or_add :
    Addresses → Option Compressed → ℕ → Bool → Option ℕ → Ret × Option ℕ × Addresses
found_or_add s c short_addr create (some ref) =
    (ok, some ref, record s { clock = update s.clock ref true })
found_or_add s c short_addr true none = addr_add s c short_addr
found_or_add s c short_addr false none = (not_found, none, s)

unfoldable pub by_compressed : Bool → Bool → Option (Compressed × Addresses) → Outcome
by_compressed create lock none = none
by_compressed create lock (some (c, s)) =
    maybe_lock lock (found_or_add s (some c) no_short create (ieee_search s c))

-- `zb_address_by_ieee`
unfoldable pub address_by_ieee : Addresses → List ℕ → Bool → Bool → Outcome
address_by_ieee s ieee create lock = by_compressed create lock (ieee_addr_compress s ieee)

-- `zb_address_by_short`
unfoldable pub address_by_short : Addresses → ℕ → Bool → Bool → Outcome
address_by_short s short_address create lock =
    maybe_lock lock (found_or_add s none short_address create (short_search s.shorts short_address))

-- What `zb_address_update` does when both addresses are found: one entry has to go, if they differ.
unfoldable pub resolve : Addresses → ℕ → ℕ → Option (ℕ × Addresses)
resolve s ref ref_long =
    if ref == ref_long
    then some (ref, s)
    else if s.lock_cnt ref == 0
    then some (ref_long, address_delete s ref)
    else if s.lock_cnt ref_long == 0
    then some (ref, address_delete s ref_long)
    else none

-- The sorted table, as `zb_address_update` leaves it for the entry.
unfoldable pub move_short : Shorts → ℕ → ℕ → Shorts
move_short shorts ref short_address =
    let old = shorts.addr ref in
    let dropped = if old == no_short then shorts else del_short_sorted shorts ref in
    if old == short_address
    then shorts
    else add_short_sorted (record dropped { addr = update dropped.addr ref short_address }) ref
        short_address

-- The entry found by `zb_address_update` gets both addresses.
unfoldable pub set_entry : Compressed → ℕ → Option (ℕ × Addresses) → Outcome
set_entry c short_address none = none
set_entry c short_address (some (ref, s)) = some (
  ok,
  some ref,
  record s {
    ieee_addr = update s.ieee_addr ref c;
    shorts = move_short s.shorts ref short_address;
    clock = update s.clock ref true;
  },
)

unfoldable pub update_found : Addresses → Compressed → ℕ → Option ℕ → Option ℕ → Outcome
update_found s c short_address (some ref) (some ref_long) =
    set_entry c short_address (resolve s ref ref_long)
update_found s c short_address (some ref) none = set_entry c short_address (some (ref, s))
update_found s c short_address none (some ref_long) = set_entry c short_address (some (ref_long, s))
update_found s c short_address none none = some (addr_add s (some c) short_address)

unfoldable pub lock_outcome : Bool → Outcome → Outcome
lock_outcome lock none = none
lock_outcome lock (some r) = maybe_lock lock r

unfoldable pub update_compressed : ℕ → Bool → Option (Compressed × Addresses) → Outcome
update_compressed short_address lock none = none
update_compressed short_address lock (some (c, s)) =
    lock_outcome lock
      (update_found s c short_address (short_search s.shorts short_address) (ieee_search s c))

-- `zb_address_update`
unfoldable pub address_update : Addresses → List ℕ → ℕ → Bool → Outcome
address_update s ieee_address short_address lock =
    update_compressed short_address lock (ieee_addr_compress s ieee_address)

unfoldable pub short_of : Outcome → Option (ℕ × Addresses)
short_of none = none
short_of (some (ok, some ref, s)) = some (s.shorts.addr ref, s)
short_of (some (ret, ref, s)) = some (no_short, s)

-- `zb_address_short_by_ieee`: the address returned, and the table, which the look-up changes.
unfoldable pub address_short_by_ieee : Addresses → List ℕ → Option (ℕ × Addresses)
address_short_by_ieee s ieee_address = short_of (address_by_ieee s ieee_address false false)

unfoldable pub ieee_of : Outcome → Option (Ret × Option (List ℕ) × Addresses)
ieee_of none = none
ieee_of (some (ok, some ref, s)) = some (ok, some (ieee_addr_decompress s (s.ieee_addr ref)), s)
ieee_of (some (ret, ref, s)) = some (not_found, none, s)

-- `zb_address_ieee_by_short`: the code, the long address stored, and the table.
unfoldable pub address_ieee_by_short : Addresses → ℕ → Option (Ret × Option (List ℕ) × Addresses)
address_ieee_by_short s short_addr = ieee_of (address_by_short s short_addr false false)
