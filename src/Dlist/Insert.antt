-- ===== src/Dlist/Insert.antt =====
-- The inserting macros of include/zb_list_macros.h put the entry where they say, and keep the links
-- in order.
use zboss.Base.{
  ◌≡◌, ◌≢◌, refl, ap, ◌∙◌, sym, subst, arith, false, true, List, [], ◌∷◌, ◌++◌, append-nil,
  append_assoc, Ptr, null, update, update_self, update_ne, ◌==◌,
}
use zboss.Dlist.{Dlist, insert_head, insert_tail, insert_after, get_tail}
use zboss.Dlist.Rep.{
  last, has, Distinct, Next, Prev, IsList, Next-update, Prev-update, Next-split, Next-join,
  Prev-split, Prev-join, last-append, first-append, NonNull-append, NonNull-split, Distinct-insert,
  Distinct-insert_after, Distinct-split, has-last, Next-retarget, has-cons_false, ne_of_has,
  has-first, has-split_false, Distinct-apart, Distinct-right,
}

pub test_ne : (a b : Ptr) → a ≢ b → (a == b) ≡ false
test_ne a b h = ground arith

pub test_eq : (a b : Ptr) → a ≡ b → (a == b) ≡ true
test_eq a b h = ground arith

-- The list variable of a list that has an entry is not NULL.
pub head_ne_null :
    (s : Dlist) (x : Ptr) (xs : List Ptr) → IsList s (x ∷ xs) → (s.head == null) ≡ false
head_ne_null s x xs l = test_ne s.head null (λ e. l.non_null.0 (sym l.heads ∙ e))

-- ZB_LIST_INSERT_HEAD of an entry that is not in the list makes it the first one.
pub insert_head-IsList :
    (s : Dlist) (e : Ptr) (xs : List Ptr)
    → IsList s xs
    → e ≢ null
    → has e xs ≡ false
    → IsList (insert_head s e) (e ∷ xs)
unfolding insert_head
insert_head-IsList s e [] l ne out = ground (arith, l.heads)
insert_head-IsList s e (x ∷ xs) l ne out =
    let (apart, out') = has-cons_false e x xs out in
    let outside : has s.head xs ≡ false = ap (λ h. has h xs) l.heads ∙ l.distinct.0 in
    let different : e ≢ s.head = λ p. apart (p ∙ l.heads) in
    let prev_e = update s.prev e (s.prev s.head) in
    rw (head_ne_null s x xs l) (record {
      heads = refl;
      nexts = (
        update_self s.next e s.head ∙ l.heads,
        Next-update s.next e s.head (x ∷ xs) null out l.nexts,
      );
      prevs = (
        update_ne prev_e s.head e e different
            ∙ update_self s.prev e _
            ∙ ap s.prev l.heads
            ∙ l.prevs.0,
        (
          ap (update prev_e s.head e) (sym l.heads) ∙ update_self prev_e s.head e,
          Prev-update _ s.head e x xs outside (Prev-update s.prev e _ x xs out' l.prevs.1),
        ),
      );
      distinct = (out, l.distinct);
      non_null = (ne, l.non_null);
    })

-- ZB_LIST_INSERT_TAIL of an entry that is not in the list makes it the last one.
pub insert_tail-IsList :
    (s : Dlist) (e : Ptr) (xs : List Ptr)
    → IsList s xs
    → e ≢ null
    → has e xs ≡ false
    → IsList (insert_tail s e) (xs ++ e ∷ [])
unfolding insert_tail
insert_tail-IsList s e [] l ne out = ground (arith, l.heads)
insert_tail-IsList s e (x ∷ xs) l ne out =
    let (apart, out') = has-cons_false e x xs out in
    let outside : has s.head xs ≡ false = ap (λ h. has h xs) l.heads ∙ l.distinct.0 in
    let different : e ≢ s.head = λ p. apart (p ∙ l.heads) in
    let tail : update s.prev e (s.prev s.head) s.head ≡ last xs x =
      update_ne s.prev e s.head _ (λ p. different (sym p)) ∙ ap s.prev l.heads ∙ l.prevs.0 in
    let not_tail : e ≢ last xs x =
      λ p. ne_of_has (last xs x) e (x ∷ xs) (has-last x xs) out (sym p) in
    let prev_e = update s.prev e (s.prev s.head) in
    rw (head_ne_null s x xs l, tail)
      (record {
        heads = l.heads;
        nexts =
            Next-join _ (x ∷ xs) (e ∷ []) null
              (Next-retarget _ x xs null e l.distinct
                (Next-update s.next e null (x ∷ xs) null out l.nexts))
              (
                update_ne (update s.next e null) (last xs x) e e not_tail
                    ∙ update_self s.next e null,
                tt,
              );
        prevs = (
          ap (update prev_e s.head e) (sym l.heads)
              ∙ update_self prev_e s.head e
              ∙ sym (last-append xs (e ∷ []) x),
          Prev-join _ x xs (e ∷ [])
              (Prev-update _ s.head e x xs outside (Prev-update s.prev e _ x xs out' l.prevs.1))
              (
                update_ne prev_e s.head e e different
                    ∙ update_self s.prev e _
                    ∙ ap s.prev l.heads
                    ∙ l.prevs.0,
                tt,
              ),
        );
        distinct = Distinct-insert e (x ∷ xs) [] (rw append-nil out) (rw append-nil l.distinct);
        non_null = NonNull-append (x ∷ xs) (e ∷ []) l.non_null (ne, tt);
      })

pub get_tail_lem : (s : Dlist) (xs : List Ptr) → IsList s xs → get_tail s ≡ last xs null
unfolding get_tail
get_tail_lem s [] l = rw (test_eq s.head null l.heads)
get_tail_lem s (x ∷ xs) l = rw (head_ne_null s x xs l) (ap s.prev l.heads ∙ l.prevs.0)

module _ (a e z : Ptr) (ys zs : List Ptr) (d : Distinct (ys ++ a ∷ z ∷ zs))
    (out : has e (ys ++ a ∷ z ∷ zs) ≡ false) where
  e_out : (has e ys ≡ false) × (e ≢ a) × (has e (z ∷ zs) ≡ false)
  e_out =
      let (left, right) = has-split_false e ys (a ∷ z ∷ zs) out in
      let (ne, rest) = has-cons_false e a (z ∷ zs) right in (left, ne, rest)

  a_out : (has a ys ≡ false) × (has a (z ∷ zs) ≡ false)
  a_out = let r = Distinct-split a ys (z ∷ zs) d in (r.0, r.1)

  z_out : (has z ys ≡ false) × (has z zs ≡ false)
  z_out = (
    Distinct-apart z ys (a ∷ z ∷ zs) d (ground (arith, has-first z zs)),
    (Distinct-right ys (a ∷ z ∷ zs) d).1.0,
  )

  Next-between :
      (f : Ptr → Ptr)
      → Next f (ys ++ a ∷ z ∷ zs) null
      → Next (update (update f e (f a)) a e) (ys ++ a ∷ e ∷ z ∷ zs) null
  Next-between f h =
      let (left, (fa, right)) = Next-split f ys (a ∷ z ∷ zs) null h in
      let g = update f e (f a) in
      Next-join _ ys (a ∷ e ∷ z ∷ zs) null
        (Next-update g a e ys a a_out.0 (Next-update f e (f a) ys a e_out.0 left))
        (
          update_self g a e,
          (
            update_ne g a e e e_out.1 ∙ update_self f e (f a) ∙ fa,
            Next-update g a e (z ∷ zs) null a_out.1
                (Next-update f e (f a) (z ∷ zs) null e_out.2 right),
          ),
        )

  Prev-between :
      (g : Ptr → Ptr) (p : Ptr)
      → Prev g p (ys ++ a ∷ z ∷ zs)
      → Prev (update (update g e a) z e) p (ys ++ a ∷ e ∷ z ∷ zs)
  Prev-between g p h =
      let (left, (ga, (gz, right))) = Prev-split g p ys (a ∷ z ∷ zs) h in
      let k = update g e a in
      let (e_ne_z, e_out_zs) = has-cons_false e z zs e_out.2 in
      let a_ne_z = (has-cons_false a z zs a_out.1).0 in
      Prev-join _ p ys (a ∷ e ∷ z ∷ zs)
        (Prev-update k z e p ys z_out.0 (Prev-update g e a p ys e_out.0 left))
        (
          update_ne k z a e a_ne_z ∙ update_ne g e a a (λ q. e_out.1 (sym q)) ∙ ga,
          (
            update_ne k z e e e_ne_z ∙ update_self g e a,
            (
              update_self k z e,
              Prev-update k z e z zs z_out.1 (Prev-update g e a z zs e_out_zs right),
            ),
          ),
        )

-- ZB_LIST_INSERT_AFTER puts a new entry right behind the entry `a` of the list.
pub insert_after-IsList :
    (s : Dlist) (a e : Ptr) (ys zs : List Ptr)
    → IsList s (ys ++ a ∷ zs)
    → e ≢ null
    → has e (ys ++ a ∷ zs) ≡ false
    → IsList (insert_after s a e) (ys ++ a ∷ e ∷ zs)
unfolding insert_after
insert_after-IsList s a e ys [] l ne out =
    let present = test_ne a null (NonNull-split ys (a ∷ []) l.non_null).1.0 in
    let at_end = test_eq a (get_tail s) (sym (get_tail_lem s _ l ∙ last-append ys (a ∷ []) null)) in
    rw (present, at_end)
      (subst (IsList (insert_tail s e)) (append_assoc ys (a ∷ []) (e ∷ []))
        (insert_tail-IsList s e (ys ++ a ∷ []) l ne out))
insert_after-IsList s a e ys (z ∷ zs) l ne out =
    let present = test_ne a null (NonNull-split ys (a ∷ z ∷ zs) l.non_null).1.0 in
    let end = get_tail_lem s _ l ∙ last-append ys (a ∷ z ∷ zs) null in
    let inside =
      ne_of_has (last zs z) a (z ∷ zs) (has-last z zs) (a_out a e z ys zs l.distinct out).1 in
    let not_end = test_ne a (get_tail s) (λ q. inside (sym (q ∙ end))) in
    let (left, (fa, right)) = Next-split s.next ys (a ∷ z ∷ zs) null l.nexts in
    let e_ne_a = (e_out a e z ys zs l.distinct out).1 in
    let target : update s.next e (s.next a) a ≡ z =
      update_ne s.next e a _ (λ q. e_ne_a (sym q)) ∙ fa in
    let same : last (ys ++ a ∷ z ∷ zs) null ≡ last (ys ++ a ∷ e ∷ z ∷ zs) null =
      last-append ys (a ∷ z ∷ zs) null ∙ sym (last-append ys (a ∷ e ∷ z ∷ zs) null) in
    let (nl, nr) = NonNull-split ys (a ∷ z ∷ zs) l.non_null in
    rw (present, not_end)
      (record {
        heads =
            l.heads
            ∙ first-append ys (a ∷ z ∷ zs) null
            ∙ sym (first-append ys (a ∷ e ∷ z ∷ zs) null);
        nexts = Next-between a e z ys zs l.distinct out s.next l.nexts;
        prevs = rw (target, ← same) (Prev-between a e z ys zs l.distinct out s.prev _ l.prevs);
        distinct = Distinct-insert_after e a ys (z ∷ zs) out l.distinct;
        non_null = NonNull-append ys (a ∷ e ∷ z ∷ zs) nl (nr.0, (ne, nr.1));
      })
