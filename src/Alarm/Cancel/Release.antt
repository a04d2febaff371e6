-- ===== src/Alarm/Cancel/Release.antt =====
-- Taking one entry from the timer queue back to the free list.
use zboss.Base.{
  ℕ, ◌≡◌, ◌≢◌, refl, sym, ap, subst, ◌∙◌, arith, false, true, List, [], ◌∷◌, ◌++◌, append_assoc,
  Ptr, null, update, update_self,
}
use zboss.Dlist.{Dlist, remove}
use zboss.Dlist.Rep.{
  last, has, Distinct, IsList, Next-update, NonNull-split, Distinct-split, Distinct-insert,
  Distinct-apart, Distinct-apart_right, has-append, has-last, has-first, has-left, ne_of_has,
}
use zboss.Dlist.Remove.{remove-IsList, linked}
use zboss.Alarm.{Alarms, cancels, release}
use zboss.Alarm.Queue.{Holds, Next-congr}

remove-next : (q : Dlist) (a p : Ptr) → p ≢ q.prev a → (remove q a).next p ≡ q.next p
unfolding remove
remove-next q a p ne = ground arith

prev_in :
    (q : Dlist) (a : Ptr) (ys zs : List Ptr)
    → IsList q (ys ++ a ∷ zs)
    → has (q.prev a) (ys ++ a ∷ zs) ≡ true
prev_in q a [] zs l =
    subst (λ p. has p (a ∷ zs) ≡ true) (sym (linked q a [] zs l).0) (has-last a zs)
prev_in q a (y ∷ ys) zs l =
    subst (λ p. has p ((y ∷ ys) ++ a ∷ zs) ≡ true) (sym (linked q a (y ∷ ys) zs l).0)
      (has-left (last ys y) (y ∷ ys) (a ∷ zs) (has-last y ys))

-- ZB_LIST_REMOVE writes no `next` field outside the list.
remove-Spares :
    (q : Dlist) (a : Ptr) (ys zs : List Ptr)
    → IsList q (ys ++ a ∷ zs)
    → (p : Ptr) → has p (ys ++ a ∷ zs) ≡ false
    → (remove q a).next p ≡ q.next p
remove-Spares q a ys zs l p out =
    remove-next q a p (λ r. ne_of_has (q.prev a) p _ (prev_in q a ys zs l) out (sym r))

-- A write to the `next` field of an entry outside the list does not bear on it.
pub IsList-write_next :
    (q : Dlist) (a v : Ptr) (xs : List Ptr)
    → has a xs ≡ false
    → IsList q xs
    → IsList (record q { next = update q.next a v }) xs
IsList-write_next q a v xs out l = record {
  heads = l.heads;
  nexts = Next-update q.next a v xs null out l.nexts;
  prevs = l.prevs;
  distinct = l.distinct;
  non_null = l.non_null;
}

-- An entry that moves to the front of the second part.
pub moved_apart :
    (a : Ptr) (ys zs fs : List Ptr)
    → Distinct ((ys ++ a ∷ zs) ++ fs)
    → Distinct ((ys ++ zs) ++ a ∷ fs)
moved_apart a ys zs fs h =
    let (a_ys, a_rest, rest) =
      Distinct-split a ys (zs ++ fs) (subst (λ l. Distinct l) (append_assoc ys (a ∷ zs) fs) h) in
    let joined : Distinct ((ys ++ zs) ++ fs) =
      subst (λ l. Distinct l) (sym (append_assoc ys zs fs)) rest in
    let out : has a ((ys ++ zs) ++ fs) ≡ false =
      ap (has a) (append_assoc ys zs fs)
      ∙ ground (arith, has-append a ys (zs ++ fs), a_ys, a_rest) in
    Distinct-insert a (ys ++ zs) fs out joined

-- Cancelling the entry `a` takes it out of the queue and puts it in front of the free list.
pub release-Holds :
    (s : Alarms) (a : Ptr) (ys zs fs : List Ptr)
    → Holds s (ys ++ a ∷ zs) fs
    → Holds (release s a) (ys ++ zs) (a ∷ fs)
unfolding release
release-Holds s a ys zs fs h =
    let q = remove s.tm_queue a in
    let (a_ys, a_zs, rest) = Distinct-split a ys zs h.queued.distinct in
    let a_out : has a (ys ++ zs) ≡ false = ground (arith, has-append a ys zs, a_ys, a_zs) in
    let a_in : has a (ys ++ a ∷ zs) ≡ true =
      ground (arith, has-append a ys (a ∷ zs), has-first a zs) in
    let a_fs = Distinct-apart_right a (ys ++ a ∷ zs) fs h.apart a_in in
    record {
      queued =
          IsList-write_next q a s.tm_freelist (ys ++ zs) a_out
            (remove-IsList s.tm_queue a ys zs h.queued).0;
      free_head = refl;
      free_next = (
        update_self q.next a s.tm_freelist ∙ h.free_head,
        Next-update q.next a s.tm_freelist fs null a_fs (
            Next-congr s.tm_queue.next q.next fs null
              (λ p m.
                remove-Spares s.tm_queue a ys zs h.queued p
                  (Distinct-apart p (ys ++ a ∷ zs) fs h.apart m))
              h.free_next),
      );
      free_non_null = ((NonNull-split ys (a ∷ zs) h.queued.non_null).1.0, h.free_non_null);
      apart = moved_apart a ys zs fs h.apart;
    }

pub cancels-release :
    (s : Alarms) (a : Ptr) (func param : ℕ)
    → cancels (release s a) func param ≡ cancels s func param
unfolding cancels release
cancels-release s a func param = refl
