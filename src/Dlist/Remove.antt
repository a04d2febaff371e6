-- ===== src/Dlist/Remove.antt =====
-- The removing macros of include/zb_list_macros.h take out the entry that they are given, keep the
-- others in order, and mark the entry as belonging to no list.
use zboss.Base.{
  ◌≡◌, ◌≢◌, ap, ◌∙◌, sym, subst, false, List, [], ◌∷◌, ◌++◌, append-nil, Ptr, null, update,
  update_self, update_ne, ◌==◌,
}
use zboss.Dlist.{Dlist, cut_head, remove, item_in_list}
use zboss.Dlist.Rep.{
  last, has, Next, IsList, Next-update, Prev-update, Next-split, Next-join, Prev-split, Prev-join,
  last-append, NonNull-append, NonNull-split, Distinct-split, has-last, Next-retarget,
  has-cons_false, has-first, Distinct-apart, Distinct-right, Distinct-left, last-NonNull,
  Distinct-apart_right,
}
use zboss.Dlist.Insert.{test_ne, test_eq, head_ne_null}

unmarked : (s : Dlist) (x : Ptr) → s.prev x ≡ null → item_in_list s x ≡ false
unfolding item_in_list
unmarked s x h = rw (test_eq (s.prev x) null h)

-- A write at an address, read back at an equal one.
update_at : (f : Ptr → Ptr) (a b v : Ptr) → a ≡ b → update f a v b ≡ v
update_at f a b v e = ap (update f a v) (sym e) ∙ update_self f a v

has_at : (a b : Ptr) (xs : List Ptr) → a ≡ b → has b xs ≡ false → has a xs ≡ false
has_at a b xs e h = ap (λ c. has c xs) e ∙ h

-- ZB_LIST_CUT_HEAD of a list with an entry hands out the first one, leaves the others in order,
-- and unmarks the entry.
pub cut_head-IsList :
    (s : Dlist) (x : Ptr) (xs : List Ptr)
    → IsList s (x ∷ xs)
    → let (ent, s') = cut_head s in (ent ≡ x) × IsList s' xs × (item_in_list s' x ≡ false)
unfolding cut_head
cut_head-IsList s x [] l =
    let end : s.next s.head ≡ null = ap s.next l.heads ∙ l.nexts.0 in
    rw (head_ne_null s x [] l, test_eq _ null end)
      (
        l.heads,
        record { heads = end; nexts = tt; prevs = tt; distinct = tt; non_null = tt },
        unmarked _ x (update_at s.prev s.head x null l.heads),
      )
cut_head-IsList s x (y ∷ ys) l =
    let second : s.next s.head ≡ y = ap s.next l.heads ∙ l.nexts.0 in
    let more : (s.next s.head == null) ≡ false =
      test_ne _ null (λ q. l.non_null.1.0 (sym second ∙ q)) in
    let prev_y = update s.prev (s.next s.head) (s.prev s.head) in
    let (x_ne_y, x_out) = has-cons_false x y ys l.distinct.0 in
    rw (head_ne_null s x (y ∷ ys) l, more)
      (
        l.heads,
        record {
          heads = second;
          nexts = l.nexts.1;
          prevs = (
            update_ne prev_y s.head y null (λ q. x_ne_y (sym l.heads ∙ sym q))
                ∙ update_at s.prev (s.next s.head) y (s.prev s.head) second
                ∙ ap s.prev l.heads
                ∙ l.prevs.0,
            Prev-update prev_y s.head null y ys (has_at s.head x ys l.heads x_out) (
                Prev-update s.prev (s.next s.head) (s.prev s.head) y ys
                  (has_at _ y ys second l.distinct.1.0) l.prevs.1.1),
          );
          distinct = l.distinct.1;
          non_null = l.non_null.1;
        },
        unmarked _ x (update_at prev_y s.head x null l.heads),
      )

-- The entry `a` has a predecessor link, so the macro ZB_LIST_REMOVE takes it for a member.
pub linked :
    (s : Dlist) (a : Ptr) (ys zs : List Ptr)
    → IsList s (ys ++ a ∷ zs)
    → (s.prev a ≡ last ys (last zs a)) × ((s.prev a == null) ≡ false)
linked s a ys zs l =
    let (nl, (na, nr)) = NonNull-split ys (a ∷ zs) l.non_null in
    let end = last-append ys (a ∷ zs) null in
    let (left, (ga, right)) = Prev-split s.prev _ ys (a ∷ zs) l.prevs in
    let before : s.prev a ≡ last ys (last zs a) = ga ∙ ap (last ys) end in
    (
      before,
      test_ne (s.prev a) null
          (λ q. last-NonNull (last zs a) ys (last-NonNull a zs na nr) nl (sym before ∙ q)),
    )

-- ZB_LIST_REMOVE of the first entry.
remove_first :
    (s : Dlist) (a : Ptr) (zs : List Ptr)
    → IsList s (a ∷ zs)
    → IsList (remove s a) zs × (item_in_list (remove s a) a ≡ false)
unfolding remove
remove_first s a [] l =
    rw (test_eq (s.next a) null l.nexts.0, (linked s a [] [] l).1, test_eq a s.head (sym l.heads))
      (
        record { heads = l.nexts.0; nexts = tt; prevs = tt; distinct = tt; non_null = tt },
        unmarked _ a (update_self (update s.prev s.head (s.prev a)) a null),
      )
remove_first s a (z ∷ zs) l =
    let more = test_ne (s.next a) null (λ q. l.non_null.1.0 (sym l.nexts.0 ∙ q)) in
    let prev_z = update s.prev (s.next a) (s.prev a) in
    let (a_ne_z, a_out) = has-cons_false a z zs l.distinct.0 in
    rw (more, (linked s a [] (z ∷ zs) l).1, test_eq a s.head (sym l.heads))
      (
        record {
          heads = l.nexts.0;
          nexts = l.nexts.1;
          prevs = (
            update_ne prev_z a z null (λ q. a_ne_z (sym q))
                ∙ update_at s.prev (s.next a) z (s.prev a) l.nexts.0
                ∙ l.prevs.0,
            Prev-update prev_z a null z zs a_out (
                Prev-update s.prev (s.next a) (s.prev a) z zs
                  (has_at _ z zs l.nexts.0 l.distinct.1.0) l.prevs.1.1),
          );
          distinct = l.distinct.1;
          non_null = l.non_null.1;
        },
        unmarked _ a (update_self prev_z a null),
      )

-- ZB_LIST_REMOVE of the last entry, which is not the first.
remove_last :
    (s : Dlist) (a y : Ptr) (ys : List Ptr)
    → IsList s (y ∷ ys ++ a ∷ [])
    → IsList (remove s a) (y ∷ ys) × (item_in_list (remove s a) a ≡ false)
unfolding remove
remove_last s a y ys l =
    let (left, (fa, _)) = Next-split s.next (y ∷ ys) (a ∷ []) null l.nexts in
    let (gleft, _) = Prev-split s.prev _ (y ∷ ys) (a ∷ []) l.prevs in
    let (a_ne_y, a_out) = has-cons_false a y ys (Distinct-split a (y ∷ ys) [] l.distinct).0 in
    let own = Distinct-left (y ∷ ys) (a ∷ []) l.distinct in
    let a_ne_head : a ≢ s.head = λ q. a_ne_y (q ∙ l.heads) in
    let (before, marked) = linked s a (y ∷ ys) [] l in
    let prev_h = update s.prev s.head (s.prev a) in
    rw (test_eq (s.next a) null fa, marked, test_ne a s.head a_ne_head)
      (
        record {
          heads = l.heads;
          nexts =
              subst (λ t. Next (update s.next t (s.next a)) (y ∷ ys) null) (sym before)
                (subst (λ t. Next (update s.next (last ys y) t) (y ∷ ys) null) (sym fa)
                  (Next-retarget s.next y ys a null own left));
          prevs = (
            update_ne prev_h a y null (λ q. a_ne_y (sym q))
                ∙ update_at s.prev s.head y (s.prev a) l.heads
                ∙ before,
            Prev-update prev_h a null y ys a_out (
                Prev-update s.prev s.head (s.prev a) y ys (has_at s.head y ys l.heads own.0)
                  gleft.1),
          );
          distinct = own;
          non_null = (NonNull-split (y ∷ ys) (a ∷ []) l.non_null).0;
        },
        unmarked _ a (update_self prev_h a null),
      )

-- ZB_LIST_REMOVE of an entry between two others.
remove_between :
    (s : Dlist) (a y z : Ptr) (ys zs : List Ptr)
    → IsList s (y ∷ ys ++ a ∷ z ∷ zs)
    → IsList (remove s a) (y ∷ ys ++ z ∷ zs) × (item_in_list (remove s a) a ≡ false)
unfolding remove
remove_between s a y z ys zs l =
    let (left, (fa, right)) = Next-split s.next (y ∷ ys) (a ∷ z ∷ zs) null l.nexts in
    let (gleft, (ga, (gz, gright))) = Prev-split s.prev _ (y ∷ ys) (a ∷ z ∷ zs) l.prevs in
    let (a_out, a_out_right, rest) = Distinct-split a (y ∷ ys) (z ∷ zs) l.distinct in
    let (a_ne_y, a_out_ys) = has-cons_false a y ys a_out in
    let (a_ne_z, a_out_zs) = has-cons_false a z zs a_out_right in
    let z_out = Distinct-apart z (y ∷ ys) (z ∷ zs) rest (has-first z zs) in
    let (z_ne_y, z_out_ys) = has-cons_false z y ys z_out in
    let z_out_zs = (Distinct-right (y ∷ ys) (z ∷ zs) rest).0 in
    let (nl, (na, nr)) = NonNull-split (y ∷ ys) (a ∷ z ∷ zs) l.non_null in
    let (before, marked) = linked s a (y ∷ ys) (z ∷ zs) l in
    let more = test_ne (s.next a) null (λ q. nr.0 (sym fa ∙ q)) in
    let not_first = test_ne a s.head (λ q. a_ne_y (q ∙ l.heads)) in
    let prev_z = update s.prev (s.next a) (s.prev a) in
    let target : prev_z a ≡ last ys y =
      update_ne s.prev (s.next a) a (s.prev a) (λ q. a_ne_z (q ∙ fa)) ∙ before in
    let apart = Distinct-apart_right (last ys y) (y ∷ ys) (z ∷ zs) rest (has-last y ys) in
    let end : last (y ∷ ys ++ a ∷ z ∷ zs) null ≡ last (y ∷ ys ++ z ∷ zs) null =
      last-append (y ∷ ys) (a ∷ z ∷ zs) null ∙ sym (last-append (y ∷ ys) (z ∷ zs) null) in
    rw (more, marked, not_first, target)
      (
        record {
          heads = l.heads;
          nexts =
              subst (λ t. Next (update s.next (last ys y) t) (y ∷ ys ++ z ∷ zs) null) (sym fa)
                (Next-join _ (y ∷ ys) (z ∷ zs) null
                  (Next-retarget s.next y ys a z (Distinct-left (y ∷ ys) (z ∷ zs) rest) left)
                  (Next-update s.next (last ys y) z (z ∷ zs) null apart right));
          prevs = (
            update_ne prev_z a y null (λ q. a_ne_y (sym q))
                ∙ update_ne s.prev (s.next a) y (s.prev a) (λ q. z_ne_y (sym (q ∙ fa)))
                ∙ gleft.0
                ∙ end,
            Prev-join _ y ys (z ∷ zs)
                (Prev-update prev_z a null y ys a_out_ys (
                  Prev-update s.prev (s.next a) (s.prev a) y ys (has_at _ z ys fa z_out_ys)
                    gleft.1))
                (
                  update_ne prev_z a z null (λ q. a_ne_z (sym q))
                      ∙ update_at s.prev (s.next a) z (s.prev a) fa
                      ∙ before,
                  Prev-update prev_z a null z zs a_out_zs (
                      Prev-update s.prev (s.next a) (s.prev a) z zs (has_at _ z zs fa z_out_zs)
                        gright),
                ),
          );
          distinct = rest;
          non_null = NonNull-append (y ∷ ys) (z ∷ zs) nl nr;
        },
        unmarked _ a (update_self prev_z a null),
      )

-- ZB_LIST_REMOVE of an entry, wherever it stands, leaves exactly the others in order and marks it
-- as belonging to no list.
pub remove-IsList :
    (s : Dlist) (a : Ptr) (ys zs : List Ptr)
    → IsList s (ys ++ a ∷ zs)
    → IsList (remove s a) (ys ++ zs) × (item_in_list (remove s a) a ≡ false)
remove-IsList s a [] zs l = remove_first s a zs l
remove-IsList s a (y ∷ ys) [] l = rw append-nil (remove_last s a y ys l)
remove-IsList s a (y ∷ ys) (z ∷ zs) l = remove_between s a y z ys zs l
