-- ===== src/Pool/Taken.antt =====
-- Which buffers of the pool are taken, and how many for each direction.
use zboss.Base.{
  ℕ, zero, suc, ◌+◌, ◌≤◌, ◌<◌, ◌≡◌, ◌≢◌, refl, sym, ap, ap₂, subst, ◌∙◌, arith, Bool, true, false,
  not, ◌&&◌, ltb, ◌==◌, if◌then◌else◌, Bool-cases, inl, inr, update, update_ne, List, [], ◌∷◌,
}
use zboss.Pool.{iobuf_pool_size, is_free}

-- How many numbers below the bound pass.
unfoldable pub count : (ℕ → Bool) → ℕ → ℕ
count p zero = 0
count p (suc n) = count p n + (if p n then 1 else 0)

pub count_same : (p q : ℕ → Bool) (n : ℕ) → ((i : ℕ) → p i ≡ q i) → count p n ≡ count q n
unfolding count
count_same p q zero same = refl
count_same p q (suc n) same = ap₂ (λ c b. c + (if b then 1 else 0)) (count_same p q n same) (same n)

count_below :
    (p q : ℕ → Bool) (b n : ℕ) → n ≤ b → ((i : ℕ) → i ≢ b → p i ≡ q i) → count p n ≡ count q n
unfolding count
count_below p q b zero low same = refl
count_below p q b (suc n) low same =
    ap₂ (λ c x. c + (if x then 1 else 0)) (count_below p q b n (omega arith) same)
      (same n (λ e. omega arith))

-- One number more passes.
pub count_more :
    (p q : ℕ → Bool) (b n : ℕ)
    → b < n
    → p b ≡ false
    → q b ≡ true
    → ((i : ℕ) → i ≢ b → p i ≡ q i)
    → count q n ≡ count p n + 1
unfolding count
count_more p q b zero below no_p yes_q same = absurd (omega arith)
count_more p q b (suc n) below no_p yes_q same = elim (Bool-cases (n == b)) [
  | inl here ↦
      let at : n ≡ b = ground arith in
      let not_p : p n ≡ false = ap p at ∙ no_p in
      let now_q : q n ≡ true = ap q at ∙ yes_q in
      let rest = count_below p q b n (omega arith) same in rw (not_p, now_q) (omega arith)
  | inr other ↦
      let rest = count_more p q b n (ground arith) no_p yes_q same in
      let apart : p n ≡ q n = same n (λ e. ground arith) in rw apart (omega arith)
]

-- The bit of a direction.
unfoldable pub has_direction : Bool → Bool → Bool
has_direction true is_in = is_in
has_direction false is_in = not is_in

-- The buffer is not free, and was handed out for the direction.
unfoldable pub is_taken : List ℕ → (ℕ → Bool) → Bool → ℕ → Bool
is_taken free is_in_buf direction b = not (is_free b free) && has_direction direction (is_in_buf b)

-- How many buffers of the pool are taken for the direction.
unfoldable pub taken : List ℕ → (ℕ → Bool) → Bool → ℕ
taken free is_in_buf direction = count (is_taken free is_in_buf direction) iobuf_pool_size

-- Buffers of the pool, each at most once.
unfoldable pub is_free_list : List ℕ → Bool
is_free_list [] = true
is_free_list (b ∷ free) = (ltb b iobuf_pool_size && not (is_free b free)) && is_free_list free

module _ (b : ℕ) (free : List ℕ) (out : is_free b free ≡ false) (below : b < iobuf_pool_size) where
  at_head : is_free b (b ∷ free) ≡ true
  unfolding is_free
  at_head = let same : (b == b) ≡ true = ground arith in rw same refl

  elsewhere : (i : ℕ) → i ≢ b → is_free i (b ∷ free) ≡ is_free i free
  unfolding is_free
  elsewhere i other = let apart : (b == i) ≡ false = ground arith in rw apart refl

  module _ (is_in_buf : ℕ → Bool) (direction : Bool) where
    -- The buffer changes between free and taken for its direction.
    pub taken_more :
        has_direction direction (is_in_buf b) ≡ true
        → taken free is_in_buf direction ≡ taken (b ∷ free) is_in_buf direction + 1
    unfolding taken is_taken
    taken_more of_direction =
        count_more (is_taken (b ∷ free) is_in_buf direction) (is_taken free is_in_buf direction) b
          iobuf_pool_size below (ap (λ x. not x && has_direction direction (is_in_buf b)) at_head)
          (ap (λ x. not x && has_direction direction (is_in_buf b)) out ∙ of_direction)
          (λ i other. ap (λ x. not x && has_direction direction (is_in_buf i)) (elsewhere i other))

    -- The count of the other direction stays.
    pub taken_same :
        has_direction direction (is_in_buf b) ≡ false
        → taken free is_in_buf direction ≡ taken (b ∷ free) is_in_buf direction
    unfolding taken is_taken
    taken_same not_direction = count_same _ _ iobuf_pool_size (λ i. elim (Bool-cases (i == b)) [
      | inl here ↦
          let at : b ≡ i = ground arith in
          subst
            (λ j. is_taken free is_in_buf direction j ≡ is_taken (b ∷ free) is_in_buf direction j)
            at
            (ap₂ (λ x y. not x && y) out not_direction
              ∙ sym (ap₂ (λ x y. not x && y) at_head not_direction))
      | inr other ↦
          ap (λ x. not x && has_direction direction (is_in_buf i))
            (sym (elsewhere i (λ e. ground arith)))
    ])

    -- The direction of a free buffer plays no part.
    pub taken_marked :
        (d : Bool)
        → taken (b ∷ free) (update is_in_buf b d) direction ≡ taken (b ∷ free) is_in_buf direction
    unfolding taken is_taken
    taken_marked d = count_same _ _ iobuf_pool_size (λ i. elim (Bool-cases (i == b)) [
      | inl here ↦
          let at : b ≡ i = ground arith in
          subst
            (λ j.
              is_taken (b ∷ free) (update is_in_buf b d) direction j
              ≡ is_taken (b ∷ free) is_in_buf direction j)
            at
            (ap (λ x. not x && has_direction direction (update is_in_buf b d b)) at_head
              ∙ sym (ap (λ x. not x && has_direction direction (is_in_buf b)) at_head))
      | inr other ↦
          ap (λ x. not (is_free i (b ∷ free)) && has_direction direction x)
            (update_ne is_in_buf b i d (λ e. ground arith))
    ])
