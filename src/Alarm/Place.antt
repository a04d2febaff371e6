-- ===== src/Alarm/Place.antt =====
-- Queueing an alarm puts its entry at one place of the sequence of pending entries and moves no
-- other.
use zboss.Base.{
  ℕ, ◌≡◌, ◌≢◌, ◌<◌, refl, sym, ap, subst, ◌∙◌, false, true, List, [], ◌∷◌, ◌++◌, append-nil, Ptr,
  null, length, Bool-cases, inl, inr, if◌then◌else◌, ◌||◌,
}
use zboss.Dlist.{Dlist}
use zboss.Dlist.Rep.{
  first, last, has, IsList, Prev-split, NonNull-split, last-NonNull, has-left, has-last,
}
use zboss.Dlist.Insert.{
  test_ne, test_eq, head_ne_null, insert_head-IsList, insert_tail-IsList, insert_after-IsList,
}
use zboss.Time.{time_ge}
use zboss.Alarm.{walk, insert_before, enqueue}
use zboss.Alarm.Queue.{Spares, insert_head-Spares, insert_tail-Spares, insert_after-Spares}
use zboss.Alarm.Walk.{before, after, before-append-after, before-cons, after-cons, walk-after}

-- All but the last of `x ∷ xs`.
front : Ptr → List Ptr → List Ptr
front x [] = []
front x (y ∷ ys) = x ∷ front y ys

front-last : (x : Ptr) (xs zs : List Ptr) → front x xs ++ last xs x ∷ zs ≡ x ∷ xs ++ zs
unfolding front
front-last x [] zs = refl
front-last x (y ∷ ys) zs = ap (◌∷◌ x) (front-last y ys zs)

-- `insert_before` at the head of a later part puts the entry between the two parts.
insert_before-IsList :
    (q : Dlist) (e x : Ptr) (xs zs : List Ptr)
    → IsList q (x ∷ xs ++ zs)
    → e ≢ null
    → has e (x ∷ xs ++ zs) ≡ false
    → IsList (insert_before q (first zs null) e) (x ∷ xs ++ e ∷ zs)
      × Spares q (insert_before q (first zs null) e) e (x ∷ xs ++ zs)
unfolding insert_before
insert_before-IsList q e x xs [] l ne out =
    let l' = rw append-nil at l in
    let out' = rw append-nil at out in
    (insert_tail-IsList q e (x ∷ xs) l' ne out', insert_tail-Spares q e (x ∷ xs ++ []) l out)
insert_before-IsList q e x xs (z ∷ zs) l ne out =
    let (nl, (nz, nr)) = NonNull-split (x ∷ xs) (z ∷ zs) l.non_null in
    let behind : q.prev z ≡ last xs x = (Prev-split q.prev _ (x ∷ xs) (z ∷ zs) l.prevs).1.0 in
    let there = last-NonNull x xs nl.0 nl.1 in
    let whole = front-last x xs (z ∷ zs) in
    let member = has-left (last xs x) (x ∷ xs) (z ∷ zs) (has-last x xs) in
    let l' = subst (IsList q) (sym whole) l in
    let out' = subst (λ ys. has e ys ≡ false) (sym whole) out in
    rw (test_ne z null nz, behind, test_ne (last xs x) null there)
      (
        subst (IsList _) (front-last x xs (e ∷ z ∷ zs))
            (insert_after-IsList q (last xs x) e (front x xs) (z ∷ zs) l' ne out'),
        insert_after-Spares q (last xs x) e (x ∷ xs ++ z ∷ zs) l member out,
      )

-- The sequence of pending entries with `e`, due at `t`, in its place: in front if the first entry
-- is not earlier, and else behind the entries at the front that are not later.
unfoldable pub place : (Ptr → ℕ) → ℕ → Ptr → List Ptr → List Ptr
place run_time t e [] = e ∷ []
place run_time t e (x ∷ xs) =
    if time_ge (run_time x) t
    then e ∷ x ∷ xs
    else before run_time t (x ∷ xs) ++ e ∷ after run_time t (x ∷ xs)

-- The first entry is not both neither earlier nor later than `t`.
abbrev pub Comparable : (Ptr → ℕ) → ℕ → List Ptr → Type 0
Comparable run_time t [] = Unit
Comparable run_time t (x ∷ xs) = (time_ge (run_time x) t || time_ge t (run_time x)) ≡ true

pub enqueue-place :
    (run_time : Ptr → ℕ) (q : Dlist) (e : Ptr) (xs : List Ptr)
    → IsList q xs
    → e ≢ null
    → has e xs ≡ false
    → length xs < 17
    → Comparable run_time (run_time e) xs
    → IsList (enqueue run_time q e) (place run_time (run_time e) e xs)
      × Spares q (enqueue run_time q e) e xs
unfolding enqueue place
enqueue-place run_time q e [] l ne out short c =
    rw (test_eq q.head null l.heads) (insert_head-IsList q e [] l ne out, insert_head-Spares q e [])
enqueue-place run_time q e (x ∷ xs) l ne out short c =
    let t = run_time e in
    elim (Bool-cases (time_ge (run_time x) t)) [
      | inl early ↦
          rw
            (
              head_ne_null q x xs l,
              subst (λ h. time_ge (run_time h) t ≡ true) (sym l.heads) early,
              early,
            )
            (insert_head-IsList q e (x ∷ xs) l ne out, insert_head-Spares q e (x ∷ xs))
      | inr late ↦
          let first_passed : time_ge t (run_time x) ≡ true = rw late at c in
          let walked =
            ap (walk 17 run_time q.next t) l.heads
            ∙ walk-after run_time t 17 q.next (x ∷ xs) short l.nexts l.non_null
            ∙ ap (λ ys. first ys null) (after-cons run_time t x xs first_passed) in
          let whole = ap (◌∷◌ x) (before-append-after run_time t xs) in
          let (placed, spared) =
            insert_before-IsList q e x (before run_time t xs) (after run_time t xs)
              (subst (IsList q) (sym whole) l) ne
              (subst (λ ys. has e ys ≡ false) (sym whole) out) in
          rw
            (
              head_ne_null q x xs l,
              subst (λ h. time_ge (run_time h) t ≡ false) (sym l.heads) late,
              late,
              before-cons run_time t x xs first_passed,
              after-cons run_time t x xs first_passed,
              walked,
            )
            (
              placed,
              subst (λ ys. Spares q (insert_before q (first (after run_time t xs) null) e) e ys)
                  whole spared,
            )
    ]

-- Placing an entry inserts it somewhere and keeps the order of the others.
pub place-parts :
    (run_time : Ptr → ℕ) (t : ℕ) (e : Ptr) (xs : List Ptr)
    → (ys : List Ptr) × (zs : List Ptr) × (place run_time t e xs ≡ ys ++ e ∷ zs) × (ys ++ zs ≡ xs)
unfolding place
place-parts run_time t e [] = ([], [], refl, refl)
place-parts run_time t e (x ∷ xs) = elim (Bool-cases (time_ge (run_time x) t)) [
  | inl h ↦ ([], x ∷ xs, rw h, refl)
  | inr h ↦ (
    before run_time t (x ∷ xs),
    after run_time t (x ∷ xs),
    rw h,
    before-append-after run_time t (x ∷ xs),
  )
]
