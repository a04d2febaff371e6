-- ===== src/Groups.antt =====
-- The group table of the APS layer and `zb_apsme_add_group_request` of aps/aps_bind.c.
pub mod Members
use zboss.Base.{
  ℕ, zero, suc, ◌+◌, Bool, true, false, ltb, ◌==◌, if◌then◌else◌, update, Option, none, some,
}

-- ZB_APS_GROUP_TABLE_SIZE
abbrev pub group_table_size : ℕ
group_table_size = 16

-- ZB_APS_ENDPOINTS_IN_GROUP_TABLE
abbrev pub endpoints_in_group_table : ℕ
endpoints_in_group_table = 8

-- ZB_APS_STATUS_TABLE_FULL
abbrev pub status_table_full : ℕ
status_table_full = 0xae

-- `zb_aps_group_table_ent_t`
pub record GroupEnt : Type 0 where
  pub group_addr : ℕ
  pub endpoints : ℕ → ℕ
  pub n_endpoints : ℕ

-- The groups of `zb_aps_group_table_t`.
pub record Groups : Type 0 where
  pub groups : ℕ → GroupEnt
  pub n_groups : ℕ

-- `for (j = 0 ; j < n_endpoints ; ++j)`, for `k` endpoints from the `j`-th on: whether it leaves by
-- `goto done`.
unfoldable pub endpoint_loop : ℕ → GroupEnt → ℕ → ℕ → Bool
endpoint_loop zero ent endpoint j = false
endpoint_loop (suc k) ent endpoint j =
    let rest = endpoint_loop k ent endpoint (j + 1) in
    if ent.endpoints j == endpoint then true else rest

-- What is done with the entry of the group: the status and the entry.
unfoldable pub add_endpoint : GroupEnt → ℕ → ℕ × GroupEnt
unfolding endpoint_loop
add_endpoint ent endpoint =
    let j = ent.n_endpoints in
    if endpoint_loop ent.n_endpoints ent endpoint 0
    then (0, ent)
    else if ltb j endpoints_in_group_table
    then (0, record ent { endpoints = update ent.endpoints j endpoint; n_endpoints = j + 1 })
    else (status_table_full, ent)

-- `for (i = 0 ; i < n_groups ; ++i)`, for `k` groups from the `i`-th on: the index of the group.
unfoldable pub group_loop : ℕ → Groups → ℕ → ℕ → Option ℕ
group_loop zero s group_address i = none
group_loop (suc k) s group_address i =
    let rest = group_loop k s group_address (i + 1) in
    if (s.groups i).group_addr == group_address then some i else rest

-- A new group behind the others: the first of its endpoints is written.
unfoldable pub add_group : Groups → ℕ → ℕ → Groups
add_group s group_address endpoint =
    let i = s.n_groups in
    record s {
      groups = update s.groups i (record {
        group_addr = group_address;
        endpoints = update (s.groups i).endpoints 0 endpoint;
        n_endpoints = 1;
      });
      n_groups = s.n_groups + 1;
    }

-- `zb_apsme_add_group_request`: the status in the confirm, and the table.
unfoldable pub add_group_request : Groups → ℕ → ℕ → ℕ × Groups
unfolding add_endpoint group_loop add_group
add_group_request s group_address endpoint = elim (group_loop s.n_groups s group_address 0) [
  | some i ↦
      let (status, ent) = add_endpoint (s.groups i) endpoint in
      (status, record s { groups = update s.groups i ent })
  | none ↦
      if ltb s.n_groups group_table_size
      then (0, add_group s group_address endpoint)
      else (status_table_full, s)
]
