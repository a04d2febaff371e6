-- ===== src/Dlist/Rep.antt =====
-- When the pointers of a list of include/zb_list_macros.h stand for a sequence of entries.
use zboss.Base.{
  Bool-cases, inl, inr, ◌≡◌, ◌≢◌, refl, sym, ap, ◌∙◌, arith, Bool, true, false, ◌||◌, List, [], ◌∷◌,
  ◌++◌, Ptr, null, update, update_self, update_ne, All, ◌==◌,
}
use zboss.Dlist.{Dlist}

abbrev pub first : List Ptr → Ptr → Ptr
first [] q = q
first (x ∷ xs) q = x

abbrev pub last : List Ptr → Ptr → Ptr
last [] p = p
last (x ∷ xs) p = last xs x

abbrev pub has : Ptr → List Ptr → Bool
has a [] = false
has a (x ∷ xs) = (a == x) || has a xs

abbrev pub Distinct : List Ptr → Type 0
Distinct [] = Unit
Distinct (x ∷ xs) = (has x xs ≡ false) × Distinct xs

-- `f` leads from each entry to the one behind it, and from the last to `q`.
abbrev pub Next : (Ptr → Ptr) → List Ptr → Ptr → Type 0
Next f [] q = Unit
Next f (x ∷ xs) q = (f x ≡ first xs q) × Next f xs q

-- `g` leads from each entry to the one before it, and from the first to `p`.
abbrev pub Prev : (Ptr → Ptr) → Ptr → List Ptr → Type 0
Prev g p [] = Unit
Prev g p (x ∷ xs) = (g x ≡ p) × Prev g x xs

abbrev pub NonNull : Ptr → Type 0
NonNull p = p ≢ null

-- The list variable and the links stand for the entries `xs`, in order.
pub record IsList (s : Dlist) (xs : List Ptr) : Type 0 where
  pub heads : s.head ≡ first xs null
  pub nexts : Next s.next xs null
  pub prevs : Prev s.prev (last xs null) xs
  pub distinct : Distinct xs
  pub non_null : All NonNull xs

-- Writes to other entries leave the links alone.
pub Next-update :
    (f : Ptr → Ptr) (a v : Ptr) (xs : List Ptr) (q : Ptr)
    → has a xs ≡ false
    → Next f xs q
    → Next (update f a v) xs q
Next-update f a v [] q out h = tt
Next-update f a v (x ∷ xs) q out h = (ground arith, Next-update f a v xs q (ground arith) h.1)

pub Prev-update :
    (g : Ptr → Ptr) (a v p : Ptr) (xs : List Ptr)
    → has a xs ≡ false
    → Prev g p xs
    → Prev (update g a v) p xs
Prev-update g a v p [] out h = tt
Prev-update g a v p (x ∷ xs) out h = (ground arith, Prev-update g a v x xs (ground arith) h.1)

-- A sequence in two parts.
pub Next-split :
    (f : Ptr → Ptr) (xs ys : List Ptr) (q : Ptr)
    → Next f (xs ++ ys) q
    → Next f xs (first ys q) × Next f ys q
Next-split f [] ys q h = (tt, h)
Next-split f (x ∷ []) ys q h = ((h.0, tt), h.1)
Next-split f (x ∷ y ∷ xs) ys q h = let r = Next-split f (y ∷ xs) ys q h.1 in ((h.0, r.0), r.1)

pub Next-join :
    (f : Ptr → Ptr) (xs ys : List Ptr) (q : Ptr)
    → Next f xs (first ys q)
    → Next f ys q
    → Next f (xs ++ ys) q
Next-join f [] ys q h k = k
Next-join f (x ∷ []) ys q h k = (h.0, k)
Next-join f (x ∷ y ∷ xs) ys q h k = (h.0, Next-join f (y ∷ xs) ys q h.1 k)

pub Prev-split :
    (g : Ptr → Ptr) (p : Ptr) (xs ys : List Ptr)
    → Prev g p (xs ++ ys)
    → Prev g p xs × Prev g (last xs p) ys
Prev-split g p [] ys h = (tt, h)
Prev-split g p (x ∷ xs) ys h = let r = Prev-split g x xs ys h.1 in ((h.0, r.0), r.1)

pub Prev-join :
    (g : Ptr → Ptr) (p : Ptr) (xs ys : List Ptr)
    → Prev g p xs
    → Prev g (last xs p) ys
    → Prev g p (xs ++ ys)
Prev-join g p [] ys h k = k
Prev-join g p (x ∷ xs) ys h k = (h.0, Prev-join g x xs ys h.1 k)

pub has-append : (a : Ptr) (xs ys : List Ptr) → has a (xs ++ ys) ≡ (has a xs || has a ys)
has-append a [] ys = refl
has-append a (x ∷ xs) ys = ground (arith, has-append a xs ys)

pub last-append : (xs ys : List Ptr) (p : Ptr) → last (xs ++ ys) p ≡ last ys (last xs p)
last-append [] ys p = refl
last-append (x ∷ xs) ys p = last-append xs ys x

pub first-append : (xs ys : List Ptr) (q : Ptr) → first (xs ++ ys) q ≡ first xs (first ys q)
first-append [] ys q = refl
first-append (x ∷ xs) ys q = refl

abbrev pub AllNonNull : List Ptr → Type 0
AllNonNull = All NonNull

pub NonNull-append : (xs ys : List Ptr) → AllNonNull xs → AllNonNull ys → AllNonNull (xs ++ ys)
NonNull-append [] ys h k = k
NonNull-append (x ∷ xs) ys h k = (h.0, NonNull-append xs ys h.1 k)

pub NonNull-split : (xs ys : List Ptr) → AllNonNull (xs ++ ys) → AllNonNull xs × AllNonNull ys
NonNull-split [] ys h = (tt, h)
NonNull-split (x ∷ xs) ys h = let r = NonNull-split xs ys h.1 in ((h.0, r.0), r.1)

-- A new entry may stand anywhere.
pub Distinct-insert :
    (e : Ptr) (xs ys : List Ptr)
    → has e (xs ++ ys) ≡ false
    → Distinct (xs ++ ys)
    → Distinct (xs ++ e ∷ ys)
Distinct-insert e [] ys out h = (out, h)
Distinct-insert e (x ∷ xs) ys out h = (
  ground (arith, has-append x xs ys, has-append x xs (e ∷ ys), h.0),
  Distinct-insert e xs ys (ground arith) h.1,
)

-- Entries of the two parts differ.
pub Distinct-split :
    (x : Ptr) (xs ys : List Ptr)
    → Distinct (xs ++ x ∷ ys)
    → (has x xs ≡ false) × (has x ys ≡ false) × Distinct (xs ++ ys)
Distinct-split x [] ys h = (refl, h.0, h.1)
Distinct-split x (y ∷ xs) ys h =
    let r = Distinct-split x xs ys h.1 in
    (
      ground (arith, has-append y xs (x ∷ ys), h.0, r.0),
      r.1,
      (ground (arith, has-append y xs (x ∷ ys), has-append y xs ys, h.0), r.2),
    )

pub Distinct-insert_after :
    (e a : Ptr) (xs ys : List Ptr)
    → has e (xs ++ a ∷ ys) ≡ false
    → Distinct (xs ++ a ∷ ys)
    → Distinct (xs ++ a ∷ e ∷ ys)
Distinct-insert_after e a [] ys out h = (ground arith, (ground arith, h.1))
Distinct-insert_after e a (x ∷ xs) ys out h = (
  ground (arith, has-append x xs (a ∷ ys), has-append x xs (a ∷ e ∷ ys), h.0),
  Distinct-insert_after e a xs ys (ground arith) h.1,
)

pub has-last : (x : Ptr) (xs : List Ptr) → has (last xs x) (x ∷ xs) ≡ true
has-last x [] = ground arith
has-last x (y ∷ xs) = ground (arith, has-last y xs)

pub ne_of_has : (a b : Ptr) (xs : List Ptr) → has a xs ≡ true → has b xs ≡ false → a ≢ b
ne_of_has a b xs h k e = cc (ap (λ c. has c xs) e)

pub has-cons_false :
    (a x : Ptr) (xs : List Ptr) → has a (x ∷ xs) ≡ false → (a ≢ x) × (has a xs ≡ false)
has-cons_false a x xs h = ground arith

-- Writing the link of the last entry redirects the end of the sequence.
pub Next-retarget :
    (f : Ptr → Ptr) (x : Ptr) (xs : List Ptr) (q v : Ptr)
    → Distinct (x ∷ xs)
    → Next f (x ∷ xs) q
    → Next (update f (last xs x) v) (x ∷ xs) v
Next-retarget f x [] q v d h = (update_self f x v, tt)
Next-retarget f x (y ∷ xs) q v d h =
    let apart = ne_of_has (last xs y) x (y ∷ xs) (has-last y xs) d.0 in
    (update_ne f _ x v (λ e. apart (sym e)) ∙ h.0, Next-retarget f y xs q v d.1 h.1)

pub has-split_false :
    (a : Ptr) (xs ys : List Ptr)
    → has a (xs ++ ys) ≡ false
    → (has a xs ≡ false) × (has a ys ≡ false)
has-split_false a xs ys h = ground (arith, has-append a xs ys)

pub Distinct-right : (xs ys : List Ptr) → Distinct (xs ++ ys) → Distinct ys
Distinct-right [] ys h = h
Distinct-right (x ∷ xs) ys h = Distinct-right xs ys h.1

pub Distinct-left : (xs ys : List Ptr) → Distinct (xs ++ ys) → Distinct xs
Distinct-left [] ys h = tt
Distinct-left (x ∷ xs) ys h = ((has-split_false x xs ys h.0).0, Distinct-left xs ys h.1)

-- What stands in the second part does not stand in the first.
pub Distinct-apart :
    (a : Ptr) (xs ys : List Ptr) → Distinct (xs ++ ys) → has a ys ≡ true → has a xs ≡ false
Distinct-apart a [] ys h m = refl
Distinct-apart a (x ∷ xs) ys h m =
    let ne = ne_of_has a x ys m (has-split_false x xs ys h.0).1 in
    ground (arith, Distinct-apart a xs ys h.1 m, ne)

pub has-first : (a : Ptr) (xs : List Ptr) → has a (a ∷ xs) ≡ true
has-first a xs = ground arith

pub last-NonNull : (x : Ptr) (xs : List Ptr) → NonNull x → AllNonNull xs → NonNull (last xs x)
last-NonNull x [] h k = h
last-NonNull x (y ∷ xs) h k = last-NonNull y xs k.0 k.1

pub Distinct-apart_right :
    (a : Ptr) (xs ys : List Ptr) → Distinct (xs ++ ys) → has a xs ≡ true → has a ys ≡ false
Distinct-apart_right a xs ys d m = elim (Bool-cases (has a ys)) [
  | inl h ↦ cc (Distinct-apart a xs ys d h)
  | inr h ↦ h
]

pub has-left : (a : Ptr) (xs ys : List Ptr) → has a xs ≡ true → has a (xs ++ ys) ≡ true
has-left a xs ys h = ground (arith, has-append a xs ys)
