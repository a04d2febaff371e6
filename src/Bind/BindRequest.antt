-- ===== src/Bind/BindRequest.antt =====
-- `zb_apsme_bind_request` as a whole.
use zboss.Base.{ℕ, ◌≡◌, refl, arith, true, false, ◌&&◌, ltb, [], ◌∷◌, ◌++◌, ◌⊎◌, inl, inr}
use native.Mathlib.Decide.{dec_lt}
use zboss.Bind.{
  DstAddr, Binding, BindReq, Lookup, resolved, bind_ok, table_full, source_of, source_place,
  destination, bind_request, src_table_size, dst_table_size,
}
use zboss.Bind.Add.{old-IsValid, new-IsValid}
use zboss.Bind.Valid.{bindings, IsValid, source_place-Placed}

-- On a valid table, and for a request that names a destination, `zb_apsme_bind_request` either returns
-- RET_OK, adds the binding of the source to the destination behind the others, and the table stays
-- valid; or it returns ZB_ZDP_STATUS_TABLE_FULL and leaves the table, which is full of sources or of
-- destinations.
pub bind_request-bindings :
    (b : Binding) (req : BindReq) (src_addr_ref : ℕ) (dst : Lookup) (addr : DstAddr)
    → IsValid b
    → destination req dst ≡ inr addr
    → let (status, b') = bind_request b req (resolved src_addr_ref) dst in
      ((status ≡ bind_ok)
        × IsValid b'
        × (bindings b' ≡ bindings b ++ (source_of req src_addr_ref, addr) ∷ []))
      ⊎ ((status ≡ table_full)
          × (b' ≡ b)
          × ((b.src_n_elements ≡ src_table_size) ⊎ (b.dst_n_elements ≡ dst_table_size)))
unfolding bind_request
bind_request-bindings b req src_addr_ref dst addr valid named =
    let source = source_of req src_addr_ref in
    let s = source_place b source in
    elim (dec_lt b.dst_n_elements dst_table_size) [
      | no full ↦
          let test : (ltb s src_table_size && ltb b.dst_n_elements dst_table_size) ≡ false =
            ground arith in
          rw test (inr (refl, refl, inr (omega (arith, valid.dst_fits))))
      | yes room ↦ elim (source_place-Placed b source valid.src_fits) [
        | inl (inside, hit) ↦
            let test : (ltb s src_table_size && ltb b.dst_n_elements dst_table_size) ≡ true =
              ground (arith, valid.src_fits) in
            let (v, list) = old-IsValid b source s addr valid room inside hit in
            rw (test, named) (inl (refl, v, list))
        | inr (end, absent) ↦ elim (dec_lt s src_table_size) [
          | no full ↦
              let test : (ltb s src_table_size && ltb b.dst_n_elements dst_table_size) ≡ false =
                ground arith in
              rw test (inr (refl, refl, inl (omega (arith, valid.src_fits, end))))
          | yes src_room ↦
              let test : (ltb s src_table_size && ltb b.dst_n_elements dst_table_size) ≡ true =
                ground arith in
              let (v, list) = new-IsValid b source s addr valid room end src_room absent in
              rw (test, named) (inl (refl, v, list))
        ]
      ]
    ]
