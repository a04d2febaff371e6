-- ===== src/Base/Lists.antt =====
-- Lists measured and indexed by native numbers, under the library's names.
use Prim.Native.Nat.{ℕ, zero, suc, ◌+◌, ◌-◌, ◌≤◌, ◌<◌, min}
use mathlib.Core.Path.{◌≡◌, refl, ap, ap₂, ◌∙◌}
use mathlib.Core.Logic.{◌≢◌, inl, inr}
use mathlib.Core.Bool.{Bool, true, false, ◌||◌}
use mathlib.Core.List.{List, [], ◌∷◌, ◌++◌, map}
use mathlib.Core.Option.{Option, none, some}
use native.Mathlib.Omega.{arith}
use zboss.Base.Tests.{if◌then◌else◌, Bool-cases, or_assoc}

module _ {ℓ} {A : Type ℓ} where
  abbrev pub length : List A → ℕ
  length [] = 0
  length (x ∷ xs) = suc (length xs)

  abbrev pub get_elem? : List A → ℕ → Option A
  get_elem? [] i = none
  get_elem? (x ∷ xs) zero = some x
  get_elem? (x ∷ xs) (suc i) = get_elem? xs i

  -- A write out of bounds changes nothing.
  abbrev pub set : List A → ℕ → A → List A
  set [] i v = []
  set (x ∷ xs) zero v = v ∷ xs
  set (x ∷ xs) (suc i) v = x ∷ set xs i v

  pub length-append : (xs ys : List A) → length (xs ++ ys) ≡ length xs + length ys
  length-append [] ys = omega arith
  length-append (x ∷ xs) ys = omega (arith, length-append xs ys)

module _ {ℓ} {A : Type ℓ} where
  pub length-set : (xs : List A) (i : ℕ) (v : A) → length (set xs i v) ≡ length xs
  length-set [] i v = refl
  length-set (x ∷ xs) zero v = refl
  length-set (x ∷ xs) (suc i) v = ap suc (length-set xs i v)

  pub get_elem?-set_self :
      (xs : List A) (i : ℕ) (v : A) → i < length xs → get_elem? (set xs i v) i ≡ some v
  get_elem?-set_self [] i v h = elim h [ ]
  get_elem?-set_self (x ∷ xs) zero v h = refl
  get_elem?-set_self (x ∷ xs) (suc i) v h = get_elem?-set_self xs i v (omega arith)

  pub get_elem?-set_ne :
      (xs : List A) {i j : ℕ} (v : A) → i ≢ j → get_elem? (set xs i v) j ≡ get_elem? xs j
  get_elem?-set_ne [] v h = refl
  get_elem?-set_ne (x ∷ xs) {i = zero} {j = zero} v h = absurd (h refl)
  get_elem?-set_ne (x ∷ xs) {i = zero} {j = suc j} v h = refl
  get_elem?-set_ne (x ∷ xs) {i = suc i} {j = zero} v h = refl
  get_elem?-set_ne (x ∷ xs) {i = suc i} {j = suc j} v h = get_elem?-set_ne xs v (λ e. h (ap suc e))

module _ {ℓ} {A : Type ℓ} where
  abbrev pub get_or : List A → ℕ → A → A
  get_or [] i d = d
  get_or (x ∷ xs) zero d = x
  get_or (x ∷ xs) (suc i) d = get_or xs i d

  abbrev pub take : ℕ → List A → List A
  take zero xs = []
  take (suc n) [] = []
  take (suc n) (x ∷ xs) = x ∷ take n xs

  abbrev pub drop : ℕ → List A → List A
  drop zero xs = xs
  drop (suc n) [] = []
  drop (suc n) (x ∷ xs) = drop n xs

  abbrev pub replicate : ℕ → A → List A
  replicate zero a = []
  replicate (suc n) a = a ∷ replicate n a

  pub take-append-drop : (n : ℕ) (xs : List A) → take n xs ++ drop n xs ≡ xs
  take-append-drop zero xs = refl
  take-append-drop (suc n) [] = refl
  take-append-drop (suc n) (x ∷ xs) = rw (take-append-drop n xs)

  pub take-append : (n : ℕ) (xs ys : List A) → n ≤ length xs → take n (xs ++ ys) ≡ take n xs
  take-append zero xs ys h = refl
  take-append (suc n) [] ys h = absurd (omega arith)
  take-append (suc n) (x ∷ xs) ys h = ap (λ l. x ∷ l) (take-append n xs ys (omega arith))

  pub drop-append : (n : ℕ) (xs ys : List A) → n ≤ length xs → drop n (xs ++ ys) ≡ drop n xs ++ ys
  drop-append zero xs ys h = refl
  drop-append (suc n) [] ys h = absurd (omega arith)
  drop-append (suc n) (x ∷ xs) ys h = drop-append n xs ys (omega arith)

  pub take_all : (n : ℕ) (xs : List A) → length xs ≤ n → take n xs ≡ xs
  take_all zero [] h = refl
  take_all zero (x ∷ xs) h = absurd (omega arith)
  take_all (suc n) [] h = refl
  take_all (suc n) (x ∷ xs) h = ap (λ l. x ∷ l) (take_all n xs (omega arith))

  pub drop_all : (n : ℕ) (xs : List A) → length xs ≤ n → drop n xs ≡ []
  drop_all zero [] h = refl
  drop_all zero (x ∷ xs) h = absurd (omega arith)
  drop_all (suc n) [] h = refl
  drop_all (suc n) (x ∷ xs) h = drop_all n xs (omega arith)

  -- Splitting behind a string of known length.
  pub take_first : (n : ℕ) (xs ys : List A) → length xs ≡ n → take n (xs ++ ys) ≡ xs
  take_first zero [] ys h = refl
  take_first zero (x ∷ xs) ys h = absurd (omega arith)
  take_first (suc n) [] ys h = absurd (omega arith)
  take_first (suc n) (x ∷ xs) ys h = ap (λ l. x ∷ l) (take_first n xs ys (omega arith))

  pub drop_first : (n : ℕ) (xs ys : List A) → length xs ≡ n → drop n (xs ++ ys) ≡ ys
  drop_first zero [] ys h = refl
  drop_first zero (x ∷ xs) ys h = absurd (omega arith)
  drop_first (suc n) [] ys h = absurd (omega arith)
  drop_first (suc n) (x ∷ xs) ys h = drop_first n xs ys (omega arith)

  pub take_beyond :
      (n k : ℕ) (xs ys : List A) → length xs ≡ n → take (n + k) (xs ++ ys) ≡ xs ++ take k ys
  take_beyond zero k [] ys h = let same : 0 + k ≡ k = omega arith in ap (λ m. take m ys) same
  take_beyond zero k (x ∷ xs) ys h = absurd (omega arith)
  take_beyond (suc n) k [] ys h = absurd (omega arith)
  take_beyond (suc n) k (x ∷ xs) ys h =
      let next : suc n + k ≡ suc (n + k) = omega arith in
      ap (λ m. take m (x ∷ (xs ++ ys))) next ∙ ap (λ l. x ∷ l) (take_beyond n k xs ys (omega arith))

  pub length-take : (n : ℕ) (xs : List A) → length (take n xs) ≡ min n (length xs)
  length-take zero xs = omega arith
  length-take (suc n) [] = omega arith
  length-take (suc n) (x ∷ xs) = omega (arith, length-take n xs)

  pub length-drop : (n : ℕ) (xs : List A) → length (drop n xs) ≡ length xs - n
  length-drop zero xs = omega arith
  length-drop (suc n) [] = omega arith
  length-drop (suc n) (x ∷ xs) = omega (arith, length-drop n xs)

  pub length-replicate : (n : ℕ) (a : A) → length (replicate n a) ≡ n
  length-replicate zero a = refl
  length-replicate (suc n) a = ap suc (length-replicate n a)

  pub length-map {κ} : {B : Type κ} (xs : List A) (f : A → B) → length (map f xs) ≡ length xs
  length-map [] f = refl
  length-map (x ∷ xs) f = ap suc (length-map xs f)

-- Every element satisfies the predicate.
abbrev pub All {ℓ κ} : {A : Type ℓ} → (A → Type κ) → List A → Type κ
All P [] = Unit
All P (x ∷ xs) = P x × All P xs

module _ {ℓ} {A : Type ℓ} where
  -- The elements that pass a test.
  abbrev pub filter : (A → Bool) → List A → List A
  filter p [] = []
  filter p (x ∷ xs) = if p x then x ∷ filter p xs else filter p xs

  abbrev pub any : (A → Bool) → List A → Bool
  any p [] = false
  any p (x ∷ xs) = p x || any p xs

  pub any-append : (p : A → Bool) (xs ys : List A) → any p (xs ++ ys) ≡ (any p xs || any p ys)
  any-append p [] ys = refl
  any-append p (x ∷ xs) ys = ap (λ b. p x || b) (any-append p xs ys) ∙ or_assoc (p x) _ _

module _ {ℓ κ} {A : Type ℓ} (P : A → Type κ) where
  pub All-append : (xs ys : List A) → All P xs → All P ys → All P (xs ++ ys)
  All-append [] ys h k = k
  All-append (x ∷ xs) ys (h, hs) k = (h, All-append xs ys hs k)

  pub All-filter : (p : A → Bool) (xs : List A) → All P xs → All P (filter p xs)
  All-filter p [] h = tt
  All-filter p (x ∷ xs) (h, hs) = elim (Bool-cases (p x)) [
    | inl e ↦ rw e (h, All-filter p xs hs)
    | inr e ↦ rw e (All-filter p xs hs)
  ]

  pub All-map_ext {μ} :
      {B : Type μ} (f g : A → B) (xs : List A)
      → All P xs
      → ((x : A) → P x → f x ≡ g x)
      → map f xs ≡ map g xs
  All-map_ext f g [] h same = refl
  All-map_ext f g (x ∷ xs) (h, hs) same = ap₂ ◌∷◌ (same x h) (All-map_ext f g xs hs same)

  pub All-mono {μ} : (Q : A → Type μ) (xs : List A) → ((x : A) → P x → Q x) → All P xs → All Q xs
  All-mono Q [] f h = tt
  All-mono Q (x ∷ xs) f (h, hs) = (f x h, All-mono Q xs f hs)

  pub All-any_ext :
      (p q : A → Bool) (xs : List A) → All P xs → ((x : A) → P x → p x ≡ q x) → any p xs ≡ any q xs
  All-any_ext p q [] h same = refl
  All-any_ext p q (x ∷ xs) (h, hs) same = ap₂ ◌||◌ (same x h) (All-any_ext p q xs hs same)

  pub All-filter_ext :
      (p q : A → Bool) (xs : List A)
      → All P xs
      → ((x : A) → P x → p x ≡ q x)
      → filter p xs ≡ filter q xs
  All-filter_ext p q [] h same = refl
  All-filter_ext p q (x ∷ xs) (h, hs) same =
      ap₂ (λ b l. if b then x ∷ l else l) (same x h) (All-filter_ext p q xs hs same)

pub map-map {ℓ κ μ} :
    {A : Type ℓ} {B : Type κ} {C : Type μ} (f : B → C) (g : A → B) (xs : List A)
    → map f (map g xs) ≡ map (λ x. f (g x)) xs
map-map f g [] = refl
map-map f g (x ∷ xs) = ap (λ l. f (g x) ∷ l) (map-map f g xs)

module _ {ℓ κ} {A : Type ℓ} {B : Type κ} (f : B → A) where
  pub filter-map :
      (p : A → Bool) (xs : List B) → filter p (map f xs) ≡ map f (filter (λ x. p (f x)) xs)
  filter-map p [] = refl
  filter-map p (x ∷ xs) = elim (Bool-cases (p (f x))) [
    | inl e ↦ rw e (ap (λ l. f x ∷ l) (filter-map p xs))
    | inr e ↦ rw e (filter-map p xs)
  ]

  pub any-map : (p : A → Bool) (xs : List B) → any p (map f xs) ≡ any (λ x. p (f x)) xs
  any-map p [] = refl
  any-map p (x ∷ xs) = ap (λ b. p (f x) || b) (any-map p xs)

module _ {ℓ} {A : Type ℓ} where
  -- No element passes a test that `any` denies, and dropping such elements changes no other test.
  pub any-All : (p : A → Bool) (xs : List A) → any p xs ≡ false → All (λ x. p x ≡ false) xs
  any-All p [] h = tt
  any-All p (x ∷ xs) h = ((neither (p x) _ h).0, any-All p xs (neither (p x) _ h).1)
    where
      neither : (b c : Bool) → (b || c) ≡ false → (b ≡ false) × (c ≡ false)
      neither false c h = (refl, h)
      neither true c h = cc

  pub any-filter :
      (p q : A → Bool) (xs : List A)
      → ((x : A) → q x ≡ false → p x ≡ false)
      → any p (filter q xs) ≡ any p xs
  any-filter p q [] h = refl
  any-filter p q (x ∷ xs) h = elim (Bool-cases (q x)) [
    | inl e ↦ rw e (ap (λ b. p x || b) (any-filter p q xs h))
    | inr e ↦ rw (e, h x e) (any-filter p q xs h)
  ]

  pub All-pair {κ μ} :
      (P : A → Type κ) (Q : A → Type μ) (xs : List A)
      → All P xs
      → All Q xs
      → All (λ x. P x × Q x) xs
  All-pair P Q [] h k = tt
  All-pair P Q (x ∷ xs) (h, hs) (k, ks) = ((h, k), All-pair P Q xs hs ks)

  pub All-map {κ μ} :
      {B : Type κ} (P : B → Type μ) (f : A → B) (xs : List A)
      → All (λ x. P (f x)) xs
      → All P (map f xs)
  All-map P f [] h = tt
  All-map P f (x ∷ xs) (h, hs) = (h, All-map P f xs hs)
