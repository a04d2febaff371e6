-- ===== src/Mesh/Types.antt =====
-- The data of mesh routing: the tables of include/zb_nwk_globals.h, the commands of include/zb_nwk.h and
-- the calls that nwk/nwk_cr_mesh_routing.c makes.
use zboss.Base.{ℕ, Bool, Option}
use zboss.Slots.{Slots}

-- `zb_nwk_route_state_t`
abbrev pub state_active : ℕ
state_active = 0

abbrev pub state_discovery_underway : ℕ
state_discovery_underway = 1

abbrev pub state_validation_underway : ℕ
state_validation_underway = 4

-- `zb_nwk_routing_t`, less `used`.
pub record Route : Type 0 where
  pub status : ℕ
  pub no_route_cache : Bool
  pub many_to_one : Bool
  pub route_record_required : Bool
  pub group_id_flag : Bool
  pub dest_addr : ℕ
  pub next_hop_addr : ℕ

-- `zb_nwk_route_discovery_t`, less `used`.
pub record RouteDiscovery : Type 0 where
  pub request_id : ℕ
  pub source_addr : ℕ
  pub sender_addr : ℕ
  pub dest_addr : ℕ
  pub forward_cost : ℕ
  pub residual_cost : ℕ
  pub expiration_time : ℕ

-- `zb_nwk_pend_t`, less `used`.
pub record Pend : Type 0 where
  pub buf : ℕ
  pub handle : ℕ
  pub dest_addr : ℕ
  pub expiry : ℕ
  pub waiting_buf : Bool

-- `zb_nwk_cmd_rreq_t` with the option 0.
pub record Rreq : Type 0 where
  pub rreq_id : ℕ
  pub dest_addr : ℕ
  pub path_cost : ℕ

-- `zb_nwk_cmd_rrep_t` with the option 0.
pub record Rrep : Type 0 where
  pub rreq_id : ℕ
  pub originator : ℕ
  pub responder : ℕ
  pub path_cost : ℕ

-- The fields of `zb_nwk_hdr_t` that the handlers read.
pub record Header : Type 0 where
  pub src_addr : ℕ
  pub seq_num : ℕ
  pub radius : ℕ

-- The part of the network information base that mesh routing reads or writes. `secure` is whether
-- frames are secured: authenticated, with secure_all_frames and a security level.
pub record Mesh : Type 0 where
  pub routing_table : Slots Route
  pub route_disc_table : Slots RouteDiscovery
  pub rreq_id : ℕ
  pub pending_table : Slots Pend
  pub aps_rreq_addr : ℕ
  pub status_ind_addr : ℕ
  pub network_address : ℕ
  pub max_depth : ℕ
  pub nwk_report_constant_cost : Bool
  pub secure : Bool

-- A call outside the tables.
pub data Event : Type 0 where
  -- a route request in the buffer, broadcast to all routers, with the source address, a sequence number
  -- that is not the device's own, and the radius
  send_rreq : ℕ → Bool → Rreq → ℕ → Option ℕ → ℕ → Event
  -- a route reply in the buffer, to the address, with the radius
  send_rrep : ℕ → ℕ → Bool → Rrep → ℕ → Event
  -- `zb_nwk_forward` of a pending frame, with its handle
  forward : ℕ → ℕ → Event
  free_buf : ℕ → Event
  -- NWK_ROUTE_DISCOVERY_CONFIRM with the buffer and both statuses
  route_discovery_confirm : ℕ → ℕ → ℕ → Event
  -- `zb_nlme_status_indication` with the status and the address
  status_indication : ℕ → ℕ → ℕ → Event
  -- ZB_GET_OUT_BUF_DELAYED of the two functions that need a buffer
  initiate_delayed : Event
  disc_failed_delayed : Event
  -- ZB_SCHEDULE_ALARM and ZB_SCHEDULE_ALARM_CANCEL of the two periodical functions
  alarm_route_disc : Event
  alarm_pending : Event
  cancel_route_disc : Event
  cancel_pending : Event
