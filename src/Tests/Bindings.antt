-- ===== src/Tests/Bindings.antt =====
-- Concrete binding tables.
use zboss.Base.{
  ◌+◌, ◌||◌, ◌&&◌, ◌≡◌, refl, arith, false, ◌==◌, ◌⊎◌, inr, [], ◌∷◌, ◌++◌, if◌then◌else◌, any,
  filter, slice,
}
use zboss.Bind.{
  BindSrc, group_addr, long_addr, Binding, BindReq, resolved, bind_ok, table_full, invalid_binding,
  src_eq, source_of, destination, bind_request, unbind_request, src_table_size, dst_table_size,
  find_src_ref, find_loop, remove_binding, remove_source,
}
use zboss.Bind.Valid.{bindings, IsValid}
use zboss.Bind.BindRequest.{bind_request-bindings}
use zboss.Bind.Unbind.{unbound}
use zboss.Bind.UnbindRequest.{unbind_request-bindings}
use zboss.Groups.{Groups, add_group_request, status_table_full}
use zboss.Groups.Members.{is_member, add_group_request-is_member}

abbrev lamp : BindSrc
lamp = record { src_addr = 4; src_end = 1; cluster_id = 6 }

-- One source with a group and a device for destinations.
abbrev table : Binding
table = record {
  src_table = λ i. lamp;
  dst_table =
      λ i. record { u = if i == 0 then group_addr 9 else long_addr 5 1; src_table_index = 0 };
  src_n_elements = 1;
  dst_n_elements = 2;
}

table-IsValid : IsValid table
unfolding slice
table-IsValid = record {
  src_fits = omega arith;
  dst_fits = omega arith;
  pointed = (omega arith, (omega arith, tt));
  used = λ i h. ground arith;
  distinct = λ i j h k e. omega arith;
}

abbrev group_req : BindReq
group_req = record {
  src_endpoint = 1;
  clusterid = 6;
  addr_mode = 1;
  addr_short = 9;
  dst_endpoint = 0;
}

names_group : destination group_req (resolved 0) ≡ inr (group_addr 9)
unfolding destination
names_group = refl

bind_request-bindings_example :
    let (status, b') = bind_request table group_req (resolved 4) (resolved 0) in
    ((status ≡ bind_ok)
      × IsValid b'
      × (bindings b' ≡ bindings table ++ (source_of group_req 4, group_addr 9) ∷ []))
    ⊎ ((status ≡ table_full) × (b' ≡ table) × ((1 ≡ src_table_size) ⊎ (2 ≡ dst_table_size)))
bind_request-bindings_example =
    bind_request-bindings table group_req 4 (resolved 0) (group_addr 9) table-IsValid names_group

unbind_request-bindings_example :
    let (status, b') = unbind_request table group_req (resolved 4) (resolved 0) in
    ((status ≡ bind_ok)
      × IsValid b'
      × (bindings b' ≡ filter (unbound (source_of group_req 4) (group_addr 9)) (bindings table)))
    ⊎ ((status ≡ invalid_binding)
        × (b' ≡ table)
        × (any (λ p. src_eq p.0 (source_of group_req 4)) (bindings table) ≡ false))
unbind_request-bindings_example =
    unbind_request-bindings table group_req 4 (resolved 0) (group_addr 9) table-IsValid
      (omega arith) names_group

-- A table whose last binding has been removed: the source is still in the first place.
abbrev emptied : Binding
emptied = record table { src_n_elements = 0; dst_n_elements = 0 }

emptied_run : (unbind_request emptied group_req (resolved 4) (resolved 0)).0 ≡ bind_ok
unfolding unbind_request find_src_ref find_loop src_eq destination remove_binding
emptied_run = refl

emptied_count : (remove_source emptied 0).src_n_elements ≡ 255
unfolding remove_source
emptied_count = refl

-- One group with two endpoints.
abbrev one_group : Groups
one_group = record {
  groups = λ i. record { group_addr = 9; endpoints = λ j. j + 1; n_endpoints = 2 };
  n_groups = 1;
}

add_group_request-is_member_example :
    let (status, s') = add_group_request one_group 9 5 in
    ((status ≡ 0) × (is_member s' 9 5 ≡ (is_member one_group 9 5 || (9 == 9 && 5 == 5))))
    ⊎ ((status ≡ status_table_full) × (is_member s' 9 5 ≡ is_member one_group 9 5))
add_group_request-is_member_example = add_group_request-is_member one_group 9 5 9 5
