-- ===== src/Alarm/Queue.antt =====
-- When the pointers of the timer queue stand for the pending entries and the free ones, and what
-- the queue's macros leave alone.
use zboss.Base.{
  ◌≡◌, ◌≢◌, sym, ap, ◌∙◌, arith, false, true, List, [], ◌∷◌, ◌++◌, Ptr, null, update, update_ne,
  Bool-cases, inl, inr, ◌==◌,
}
use zboss.Dlist.{Dlist, insert_head, insert_tail, insert_after, get_tail}
use zboss.Dlist.Rep.{
  first, last, has, Distinct, Next, AllNonNull, IsList, has-last, ne_of_has, has-first,
  has-cons_false,
}
use zboss.Dlist.Insert.{head_ne_null, test_eq}
use zboss.Alarm.{Alarms}

-- The queue holds the entries `xs`, in order, and the free list the entries `fs`; no entry is twice
-- in either or in both.
pub record Holds (s : Alarms) (xs fs : List Ptr) : Type 0 where
  pub queued : IsList s.tm_queue xs
  pub free_head : s.tm_freelist ≡ first fs null
  pub free_next : Next s.tm_queue.next fs null
  pub free_non_null : AllNonNull fs
  pub apart : Distinct (xs ++ fs)

-- The macro left the `next` fields outside the list alone, except that of `e`.
abbrev pub Spares : Dlist → Dlist → Ptr → List Ptr → Type 0
Spares q r e xs = (p : Ptr) → p ≢ e → has p xs ≡ false → r.next p ≡ q.next p

pub insert_head-Spares : (q : Dlist) (e : Ptr) (xs : List Ptr) → Spares q (insert_head q e) e xs
unfolding insert_head
insert_head-Spares q e xs p ne out = ground arith

pub insert_tail-Spares :
    (q : Dlist) (e : Ptr) (xs : List Ptr)
    → IsList q xs
    → has e xs ≡ false
    → Spares q (insert_tail q e) e xs
unfolding insert_tail
insert_tail-Spares q e [] l new p ne out =
    rw (test_eq q.head null l.heads) (update_ne q.next e p null ne)
insert_tail-Spares q e (x ∷ xs) l new p ne out =
    let different : q.head ≢ e = λ r. (has-cons_false e x xs new).0 (sym r ∙ l.heads) in
    let tail : update q.prev e (q.prev q.head) q.head ≡ last xs x =
      update_ne q.prev e q.head _ different ∙ ap q.prev l.heads ∙ l.prevs.0 in
    let not_tail = ne_of_has (last xs x) p (x ∷ xs) (has-last x xs) out in
    rw (head_ne_null q x xs l) (
      update_ne (update q.next e null) _ p e (λ r. not_tail (sym tail ∙ sym r))
      ∙ update_ne q.next e p null ne)

pub insert_after-Spares :
    (q : Dlist) (a e : Ptr) (xs : List Ptr)
    → IsList q xs
    → has a xs ≡ true
    → has e xs ≡ false
    → Spares q (insert_after q a e) e xs
unfolding insert_after
insert_after-Spares q a e xs l mem new p ne out = elim (Bool-cases (a == null)) [
  | inl none ↦ rw none
  | inr some ↦ elim (Bool-cases (a == get_tail q)) [
    | inl end ↦ rw (some, end) (insert_tail-Spares q e xs l new p ne out)
    | inr inner ↦
        rw (some, inner)
          (update_ne (update q.next e (q.next a)) a p e (λ r. ne_of_has a p xs mem out (sym r))
            ∙ update_ne q.next e p (q.next a) ne)
  ]
]

-- Links that are the same at every entry of a sequence lead through it alike.
pub Next-congr :
    (f g : Ptr → Ptr) (xs : List Ptr) (q : Ptr)
    → ((p : Ptr) → has p xs ≡ true → g p ≡ f p)
    → Next f xs q
    → Next g xs q
Next-congr f g [] q same h = tt
Next-congr f g (x ∷ xs) q same h =
    (same x (has-first x xs) ∙ h.0, Next-congr f g xs q (λ p m. same p (ground (arith, m))) h.1)
