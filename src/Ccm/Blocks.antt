-- ===== src/Ccm/Blocks.antt =====
-- The exclusive or of blocks: what it reads, and that it takes itself back.
use zboss.Base.{
  ℕ, zero, suc, ◌-◌, ◌≤◌, ◌≡◌, refl, ap, ap₂, ◌∙◌, arith, bit_xor, List, [], ◌∷◌, ◌++◌, length,
  take, replicate, take_first, length-append, length-replicate,
}
use zboss.Fcs.Bits.{bit_xor_cancel, zero-bit_xor}
use zboss.Ccm.{xor_loop, xor16, padded}

pub take-xor_loop : (n k : ℕ) (e v : List ℕ) → n ≤ k → take n (xor_loop k e v) ≡ xor_loop n e v
unfolding xor_loop
take-xor_loop zero k e v h = refl
take-xor_loop (suc n) zero e v h = absurd (omega arith)
take-xor_loop (suc n) (suc k) [] v h = refl
take-xor_loop (suc n) (suc k) (x ∷ e) [] h = refl
take-xor_loop (suc n) (suc k) (x ∷ e) (y ∷ v) h =
    ap (λ l. bit_xor x y ∷ l) (take-xor_loop n k e v (omega arith))

pub xor_loop-append :
    (n : ℕ) (e v r : List ℕ) → n ≤ length v → xor_loop n e (v ++ r) ≡ xor_loop n e v
unfolding xor_loop
xor_loop-append zero e v r h = refl
xor_loop-append (suc n) e [] r h = absurd (omega arith)
xor_loop-append (suc n) [] (y ∷ v) r h = refl
xor_loop-append (suc n) (x ∷ e) (y ∷ v) r h =
    ap (λ l. bit_xor x y ∷ l) (xor_loop-append n e v r (omega arith))

pub length-xor_loop :
    (n : ℕ) (e v : List ℕ) → n ≤ length e → n ≤ length v → length (xor_loop n e v) ≡ n
unfolding xor_loop
length-xor_loop zero e v h k = refl
length-xor_loop (suc n) [] v h k = absurd (omega arith)
length-xor_loop (suc n) (x ∷ e) [] h k = absurd (omega arith)
length-xor_loop (suc n) (x ∷ e) (y ∷ v) h k =
    ap suc (length-xor_loop n e v (omega arith) (omega arith))

pub xor_loop_cancel :
    (n : ℕ) (e v : List ℕ) → n ≤ length e → xor_loop n e (xor_loop n e v) ≡ take n v
unfolding xor_loop
xor_loop_cancel zero e v h = refl
xor_loop_cancel (suc n) [] v h = absurd (omega arith)
xor_loop_cancel (suc n) (x ∷ e) [] h = refl
xor_loop_cancel (suc n) (x ∷ e) (y ∷ v) h =
    ap₂ ◌∷◌ (bit_xor_cancel x y) (xor_loop_cancel n e v (omega arith))

pub zeros-xor_loop : (n : ℕ) (v : List ℕ) → length v ≡ n → xor_loop n (replicate n 0) v ≡ v
unfolding xor_loop
zeros-xor_loop zero [] h = refl
zeros-xor_loop zero (y ∷ v) h = absurd (omega arith)
zeros-xor_loop (suc n) [] h = absurd (omega arith)
zeros-xor_loop (suc n) (y ∷ v) h = ap₂ ◌∷◌ (zero-bit_xor y) (zeros-xor_loop n v (omega arith))

pub length-padded : (p : List ℕ) → length p ≤ 16 → length (padded p) ≡ 16
length-padded p h =
    length-append p (replicate (16 - length p) 0)
    ∙ omega (arith, length-replicate {A = ℕ} (16 - length p) 0)

-- The used octets of a padded block, encrypted twice.
pub xor16-padded_cancel :
    (e p : List ℕ) (n : ℕ)
    → length e ≡ 16
    → length p ≡ n
    → n ≤ 16
    → take n (xor16 e (padded (take n (xor16 e (padded p))))) ≡ p
unfolding xor16
xor16-padded_cancel e p n he hp short =
    let q = take n (xor_loop 16 e (padded p)) in
    let first : q ≡ xor_loop n e (padded p) = take-xor_loop n 16 e (padded p) short in
    let full : length q ≡ n =
      ap length first
      ∙ length-xor_loop n e (padded p) (omega arith) (omega (arith, length-padded p)) in
    take-xor_loop n 16 e (padded q) short
    ∙ xor_loop-append n e q (replicate (16 - length q) 0) (omega arith)
    ∙ ap (xor_loop n e) first
    ∙ xor_loop_cancel n e (padded p) (omega arith)
    ∙ take_first n p (replicate (16 - length p) 0) hp
