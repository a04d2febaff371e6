-- ===== src/Tests/Mesh.antt =====
-- Mesh routing on concrete tables.
use zboss.Base.{ℕ, ◌≡◌, refl, arith, true, false, Option, none, some, [], ◌∷◌, update}
use zboss.Slots.{
  Slot, array_find_ent, find_loop, is_match, array_get_ent, is_free, set_ent, free_ent,
  array_put_ent,
}
use zboss.Slots.Count.{used_count, one_if}
use zboss.Mesh.Types.{
  Route, RouteDiscovery, Rreq, Pend, Rrep, Header, Mesh, send_rreq, forward, free_buf,
  route_discovery_confirm,
}
use zboss.Mesh.{calc_path_cost, get_mac_source_addr, mesh_rreq_handler}
use zboss.Mesh.Reply.{mesh_rrep_handler}
use zboss.Mesh.Discover.{
  mesh_route_discovery, mesh_add_buf_to_pending, mesh_find_route, nlme_route_discovery_request,
}
use zboss.Mesh.Valid.{IsValid}
use zboss.Mesh.Run.{start, next, add_pending, discover, MeshRun-IsValid}
use zboss.Mesh.Again.{is_sent, mesh_rreq_handler-once}
use zboss.Mesh.Forward.{Arrived, mesh_rrep_handler-Arrived}

abbrev no_route : Slot Route
no_route = record {
  used = false;
  ent = record {
    status = 0;
    no_route_cache = false;
    many_to_one = false;
    route_record_required = false;
    group_id_flag = false;
    dest_addr = 0;
    next_hop_addr = 0;
  };
}

abbrev no_discovery : Slot RouteDiscovery
no_discovery = record {
  used = false;
  ent = record {
    request_id = 0;
    source_addr = 0;
    sender_addr = 0;
    dest_addr = 0;
    forward_cost = 0;
    residual_cost = 0;
    expiration_time = 0;
  };
}

abbrev no_frame : Slot Pend
no_frame = record {
  used = false;
  ent = record { buf = 0; handle = 0; dest_addr = 0; expiry = 0; waiting_buf = false };
}

abbrev quiet : Mesh
quiet = record {
  routing_table = record { array = λ _. no_route; cnt = 0 };
  route_disc_table = record { array = λ _. no_discovery; cnt = 0 };
  rreq_id = 0;
  pending_table = record { array = λ _. no_frame; cnt = 0 };
  aps_rreq_addr = 0xffff;
  status_ind_addr = 0;
  network_address = 3;
  max_depth = 5;
  nwk_report_constant_cost = false;
  secure = true;
}

-- No neighbours.
abbrev alone : ℕ → Option ℕ
alone _ = none

-- A request for a route to 9 has gone out, and two frames wait for it, and one for 8.
abbrev frame : ℕ → ℕ → ℕ → Slot Pend
frame buf handle dest_addr = record {
  used = true;
  ent = record {
    buf = buf;
    handle = handle;
    dest_addr = dest_addr;
    expiry = 20;
    waiting_buf = false;
  };
}

abbrev asking : Mesh
asking = record quiet {
  routing_table = record {
    array =
        update (λ _. no_route) 0
          (record { used = true; ent = record (no_route.ent) { status = 1; dest_addr = 9 } });
    cnt = 1;
  };
  route_disc_table = record {
    array =
        update (λ _. no_discovery) 0
          (record {
            used = true;
            ent = record {
              request_id = 1;
              source_addr = 3;
              sender_addr = 3;
              dest_addr = 9;
              forward_cost = 0;
              residual_cost = 0xff;
              expiration_time = 10;
            };
          });
    cnt = 1;
  };
  rreq_id = 1;
  pending_table = record {
    array =
        update (update (update (λ _. no_frame) 0 (frame 20 1 9)) 1 (frame 21 2 8)) 2 (frame 22 3 9);
    cnt = 3;
  };
  aps_rreq_addr = 9;
}

abbrev reply : Rrep
reply = record { rreq_id = 1; originator = 3; responder = 9; path_cost = 2 }

abbrev from_hop : Header
from_hop = record { src_addr = 4; seq_num = 7; radius = 10 }

asked :
    (nlme_route_discovery_request alone true quiet 5 none 0
      (record { address_mode = 2; network_addr = 9; radius = 0 })).0
    ≡ send_rreq 5 true (record { rreq_id = 1; dest_addr = 9; path_cost = 0 }) 3 none 10 ∷ []
unfolding nlme_route_discovery_request mesh_rreq_handler array_find_ent find_loop is_match
    array_get_ent is_free
asked = refl

answered :
    (mesh_rrep_handler alone asking 6 (some 4) from_hop reply).0
    ≡ forward 20 1 ∷ forward 22 3 ∷ route_discovery_confirm 6 0 0xff ∷ free_buf 6 ∷ []
unfolding mesh_rrep_handler array_find_ent find_loop is_match free_ent set_ent
answered = refl

mesh_rrep_handler-Arrived_example :
    Arrived asking 6 0 0 9 4 9 (mesh_rrep_handler alone asking 6 (some 4) from_hop reply)
unfolding array_find_ent find_loop is_match calc_path_cost get_mac_source_addr
mesh_rrep_handler-Arrived_example =
    mesh_rrep_handler-Arrived alone asking 6 (some 4) from_hop reply 0 0 refl refl (omega arith)
      refl

abbrev two_calls : Mesh
two_calls =
    (mesh_route_discovery alone ((mesh_add_buf_to_pending quiet 20 9 1).1) (some 5) none 0 9 0).1

quiet-IsValid : IsValid quiet
unfolding used_count one_if
quiet-IsValid = record { routes = refl; discoveries = refl; pending = refl }

MeshRun-IsValid_example : IsValid two_calls
MeshRun-IsValid_example =
    MeshRun-IsValid quiet two_calls quiet-IsValid
      (next (next start (add_pending 20 9 1)) (discover alone none 0 (some 5) 9 0))

-- A reply that answers no known request takes away the route to its responder, also an active one.
abbrev routed : Mesh
routed = record quiet {
  routing_table = record {
    array =
        update (λ _. no_route) 0
          (record {
            used = true;
            ent = record (no_route.ent) { status = 0; dest_addr = 9; next_hop_addr = 4 };
          });
    cnt = 1;
  };
}

unasked_reply :
    mesh_find_route ((mesh_rrep_handler alone routed 6 (some 4) from_hop reply).1) 9 ≡ none
unfolding mesh_rrep_handler mesh_find_route array_find_ent find_loop is_match array_put_ent free_ent
unasked_reply = refl

-- A request of device 7 for a route to 9, which device 4 has passed on.
abbrev heard : Rreq
heard = record { rreq_id = 8; dest_addr = 9; path_cost = 3 }

abbrev of_seven : Header
of_seven = record { src_addr = 7; seq_num = 20; radius = 9 }

mesh_rreq_handler-once_example :
    let t = (mesh_rreq_handler alone quiet 5 (some 4) of_seven heard).1 in
    let o = mesh_rreq_handler alone t 6 (some 2) of_seven heard in
    (o.0 ≡ free_buf 6 ∷ []) × ((o.1).route_disc_table ≡ t.route_disc_table)
unfolding mesh_rreq_handler array_find_ent find_loop is_match array_get_ent is_free is_sent
mesh_rreq_handler-once_example =
    mesh_rreq_handler-once alone quiet 5 (some 4) of_seven heard quiet-IsValid refl 6 (some 2)
