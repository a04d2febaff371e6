-- ===== src/Bind/UnbindRequest.antt =====
-- `zb_apsme_unbind_request` as a whole.
use zboss.Base.{
  ℕ, ◌<◌, ◌≡◌, refl, ◌∙◌, arith, true, false, ◌==◌, List, [], ◌∷◌, any, filter, All-any_ext,
  any-map, ◌⊎◌, inl, inr,
}
use zboss.Bind.{
  BindDst, DstAddr, Binding, BindReq, Lookup, resolved, bind_ok, invalid_binding, src_eq, source_of,
  destination, find_src_ref, unbind_request,
}
use zboss.Bind.Find.{find_src_ref-Found}
use zboss.Bind.Valid.{rows, resolve, bindings, IsValid}
use zboss.Bind.Unbind.{unbound, remove_binding-bindings}

-- On a valid table with a source, and for a request that names a destination,
-- `zb_apsme_unbind_request` either returns RET_OK, removes exactly the bindings of the source to the
-- destination and keeps the others in their order, and the table stays valid; or it returns
-- RET_INVALID_BINDING and leaves the table, in which no binding has the source.
pub unbind_request-bindings :
    (b : Binding) (req : BindReq) (src_addr_ref : ℕ) (dst : Lookup) (addr : DstAddr)
    → IsValid b
    → 0 < b.src_n_elements
    → destination req dst ≡ inr addr
    → let (status, b') = unbind_request b req (resolved src_addr_ref) dst in
      let source = source_of req src_addr_ref in
      ((status ≡ bind_ok) × IsValid b' × (bindings b' ≡ filter (unbound source addr) (bindings b)))
      ⊎ ((status ≡ invalid_binding)
          × (b' ≡ b)
          × (any (λ p. src_eq p.0 source) (bindings b) ≡ false))
unfolding unbind_request bindings
unbind_request-bindings b req src_addr_ref dst addr valid more named =
    let source = source_of req src_addr_ref in
    elim (find_src_ref-Found b source more) [
      | inl (inside, hit) ↦
          let s = find_src_ref b source in
          let known : (s == 255) ≡ false = ground (arith, valid.src_fits) in
          let (v, list) = remove_binding-bindings b source s addr valid inside hit in
          rw (known, named) (inl (refl, v, list))
      | inr (r, absent) ↦
          let unknown : (find_src_ref b source == 255) ≡ true = ground arith in
          rw unknown (
            inr (
              refl,
              refl,
              any-map (resolve b.src_table) (λ p. src_eq p.0 source) (rows b)
                  ∙ All-any_ext (λ e. e.src_table_index < b.src_n_elements)
                      (λ e. src_eq (b.src_table e.src_table_index) source) (λ e. false) (rows b)
                      valid.pointed (λ e below. absent e.src_table_index (omega arith) below)
                  ∙ any_false (rows b),
            ))
    ]
  where
    any_false : (xs : List BindDst) → any (λ x. false) xs ≡ false
    any_false [] = refl
    any_false (x ∷ xs) = any_false xs
