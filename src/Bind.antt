-- ===== src/Bind.antt =====
-- The binding table of the APS layer, aps/aps_bind.c: sources (a device, an endpoint and a cluster) and
-- destinations, each with the index of its source. `zb_address_by_ieee`, which resolves long addresses,
-- is given by its result.
pub mod Find
pub mod Valid
pub mod Add
pub mod BindRequest
pub mod Remove
pub mod Drop
pub mod Unbind
pub mod UnbindRequest
use zboss.Base.{
  ℕ, zero, suc, ◌+◌, ◌-◌, ◌%◌, Bool, true, false, not, ◌&&◌, ◌||◌, ltb, ◌==◌, if◌then◌else◌, update,
  memmove, ◌⊎◌, inl, inr,
}

-- `zb_aps_bind_src_table_t`
pub record BindSrc : Type 0 where
  pub src_addr : ℕ
  pub src_end : ℕ
  pub cluster_id : ℕ

-- The union of `zb_aps_bind_dst_table_t`, by its `dst_addr_mode`.
pub data DstAddr : Type 0 where
  group_addr : ℕ → DstAddr
  long_addr : ℕ → ℕ → DstAddr

pub record BindDst : Type 0 where
  pub u : DstAddr
  pub src_table_index : ℕ

-- `zb_aps_binding_table_t`
pub record Binding : Type 0 where
  pub src_table : ℕ → BindSrc
  pub dst_table : ℕ → BindDst
  pub src_n_elements : ℕ
  pub dst_n_elements : ℕ

-- The fields of `zb_apsme_binding_req_t` that are not long addresses.
pub record BindReq : Type 0 where
  pub src_endpoint : ℕ
  pub clusterid : ℕ
  pub addr_mode : ℕ
  pub addr_short : ℕ
  pub dst_endpoint : ℕ

-- What `zb_address_by_ieee` returns: RET_OK and a reference, or an error.
pub data Lookup : Type 0 where
  resolved : ℕ → Lookup
  unresolved : ℕ → Lookup

-- The status of a request: RET_OK, RET_INVALID_BINDING, RET_ILLEGAL_REQUEST,
-- ZB_ZDP_STATUS_TABLE_FULL, or an error of `zb_address_by_ieee`.
pub data BindStatus : Type 0 where
  bind_ok : BindStatus
  invalid_binding : BindStatus
  illegal_request : BindStatus
  table_full : BindStatus
  address_error : ℕ → BindStatus

-- ZB_APS_SRC_BINDING_TABLE_SIZE
abbrev pub src_table_size : ℕ
src_table_size = 32

-- ZB_APS_DST_BINDING_TABLE_SIZE
abbrev pub dst_table_size : ℕ
dst_table_size = 32

-- ZB_APS_ADDR_MODE_16_GROUP_ENDP_NOT_PRESENT
abbrev pub addr_mode_group : ℕ
addr_mode_group = 1

-- ZB_APS_ADDR_MODE_64_ENDP_PRESENT
abbrev pub addr_mode_long : ℕ
addr_mode_long = 3

-- The comparison of an entry with a source.
unfoldable pub src_eq : BindSrc → BindSrc → Bool
src_eq e f = e.src_addr == f.src_addr && e.src_end == f.src_end && e.cluster_id == f.cluster_id

-- The comparison of an entry with a destination.
unfoldable pub addr_eq : DstAddr → DstAddr → Bool
addr_eq (group_addr a) (group_addr b) = a == b
addr_eq (long_addr a e) (long_addr b f) = a == b && e == f
addr_eq x y = false

-- The `do` loop of `aps_find_src_ref`; -1 is 255.
unfoldable pub find_loop : ℕ → Binding → BindSrc → ℕ → ℕ
unfolding src_eq
find_loop zero b source l = 255
find_loop (suc k) b source l =
    let rest = find_loop k b source (l + 1) in
    if src_eq (b.src_table l) source then l else if ltb (l + 1) b.src_n_elements then rest else 255

-- `aps_find_src_ref`
unfoldable pub find_src_ref : Binding → BindSrc → ℕ
unfolding find_loop
find_src_ref b source = find_loop (b.src_n_elements + 1) b source 0

abbrev pub source_of : BindReq → ℕ → BindSrc
source_of req src_addr_ref = record {
  src_addr = src_addr_ref;
  src_end = req.src_endpoint;
  cluster_id = req.clusterid;
}

-- The destination that a request names, or the status that both requests give when there is none.
unfoldable pub destination : BindReq → Lookup → BindStatus ⊎ DstAddr
destination req (resolved dst_addr_ref) =
    if req.addr_mode == addr_mode_long
    then inr (long_addr dst_addr_ref req.dst_endpoint)
    else if req.addr_mode == addr_mode_group
    then inr (group_addr req.addr_short)
    else inl invalid_binding
destination req (unresolved status) =
    if req.addr_mode == addr_mode_long
    then inl (address_error status)
    else if req.addr_mode == addr_mode_group
    then inr (group_addr req.addr_short)
    else inl invalid_binding

-- `zb_apsme_bind_request` when the status is RET_OK: the entries are written.
unfoldable pub add_binding : Binding → BindSrc → ℕ → DstAddr → Binding
add_binding b source s addr =
    let d = b.dst_n_elements in
    let b' =
      if s == b.src_n_elements
      then record b {
        src_table = update b.src_table s source;
        src_n_elements = (b.src_n_elements + 1) % 256;
      }
      else b in
    record b' {
      dst_table = update b'.dst_table d (record { u = addr; src_table_index = s });
      dst_n_elements = (b'.dst_n_elements + 1) % 256;
    }

-- `s = ( s == (zb_uint8_t)-1 ) ? ZG->aps.binding.src_n_elements : s`
unfoldable pub source_place : Binding → BindSrc → ℕ
unfolding find_src_ref
source_place b source = let s = find_src_ref b source in if s == 255 then b.src_n_elements else s

-- `zb_apsme_bind_request`, given what the source's and the destination's long address resolve to.
unfoldable pub bind_request : Binding → BindReq → Lookup → Lookup → BindStatus × Binding
unfolding destination add_binding source_place
bind_request b req (unresolved status) dst = (address_error status, b)
bind_request b req (resolved src_addr_ref) dst =
    let source = source_of req src_addr_ref in
    let s = source_place b source in
    if ltb s src_table_size && ltb b.dst_n_elements dst_table_size
    then elim (destination req dst) [
      | inl status ↦ (status, b)
      | inr addr ↦ (bind_ok, add_binding b source s addr)
    ]
    else (table_full, b)

-- The variables of the loop of `zb_apsme_unbind_request` over the destinations.
pub record Removal : Type 0 where
  pub rows : ℕ → BindDst
  pub n : ℕ
  pub d : ℕ
  pub found : Bool

-- The body of the loop.
unfoldable pub remove_body : ℕ → DstAddr → Removal → Removal
unfolding addr_eq
remove_body s addr r =
    let entry = r.rows r.d in
    let n = (r.n + 255) % 256 in
    if entry.src_table_index == s && addr_eq entry.u addr
    then record r { rows = memmove r.rows r.d (r.d + 1) (n - r.d); n = n }
    else record r { d = (r.d + 1) % 256; found = r.found || entry.src_table_index == s }

-- `while ( d < dst_n_elements )`
unfoldable pub remove_while : ℕ → ℕ → DstAddr → Removal → Removal
unfolding remove_body
remove_while zero s addr r = r
remove_while (suc k) s addr r =
    let rest = remove_while k s addr (remove_body s addr r) in if ltb r.d r.n then rest else r

-- The `do` loop over the destinations: the body runs before the first test.
unfoldable pub remove_rows : Binding → ℕ → DstAddr → Removal
unfolding remove_while
remove_rows b s addr =
    let start : Removal = record {
      rows = b.dst_table;
      n = b.dst_n_elements;
      d = 0;
      found = false;
    } in
    remove_while 256 s addr (remove_body s addr start)

-- The body of the loop that corrects the indexes.
unfoldable pub correct_row : ℕ → BindDst → BindDst
correct_row s entry =
    if ltb s entry.src_table_index
    then record entry { src_table_index = entry.src_table_index - 1 }
    else entry

-- The loop itself, from `d` on.
unfoldable pub correct_loop : ℕ → ℕ → (ℕ → BindDst) → ℕ → ℕ → ℕ → BindDst
unfolding correct_row
correct_loop zero s rows n d = rows
correct_loop (suc k) s rows n d =
    let rows = update rows d (correct_row s (rows d)) in
    let rest = correct_loop k s rows n (d + 1) in if ltb (d + 1) n then rest else rows

-- `if ( !found )`: the source is removed as well.
unfoldable pub remove_source : Binding → ℕ → Binding
unfolding correct_loop
remove_source b s =
    let n = (b.src_n_elements + 255) % 256 in
    record b {
      src_table = memmove b.src_table s (s + 1) (n - s);
      src_n_elements = n;
      dst_table = correct_loop 256 s b.dst_table b.dst_n_elements 0;
    }

-- `zb_apsme_unbind_request` when the status is RET_OK: the entries are removed.
unfoldable pub remove_binding : Binding → ℕ → DstAddr → Binding
unfolding remove_rows remove_source
remove_binding b s addr =
    let r = remove_rows b s addr in
    let b' = record b { dst_table = r.rows; dst_n_elements = r.n } in
    if r.found then b' else remove_source b' s

-- `zb_apsme_unbind_request`
unfoldable pub unbind_request : Binding → BindReq → Lookup → Lookup → BindStatus × Binding
unfolding find_src_ref destination remove_binding
unbind_request b req (unresolved status) dst = (illegal_request, b)
unbind_request b req (resolved src_addr_ref) dst =
    let s = find_src_ref b (source_of req src_addr_ref) in
    if s == 255 then (invalid_binding, b) else elim (destination req dst) [
      | inl status ↦ (status, b)
      | inr addr ↦ (bind_ok, remove_binding b s addr)
    ]
