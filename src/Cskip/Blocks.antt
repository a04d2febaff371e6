-- ===== src/Cskip/Blocks.antt =====
-- The addresses of a router's block are its own, the blocks of its router children, and one for each
-- of its other children.
use zboss.Base.{
  ℕ, zero, suc, ◌+◌, ◌-◌, ◌*◌, ◌/◌, ◌%◌, ◌^◌, ◌<◌, ◌≤◌, ◌≡◌, sym, ap, subst, ◌∙◌, arith, true,
  false, ltb, leb, ◌==◌, if◌then◌else◌,
}
use native.Mathlib.Nat.{add-mul-div_left}
use zboss.Cskip.{line, Nib, power_loop, quotient, calc_cskip}

module _ (others routers : ℕ) where
  -- The size of the block of a router with `k` levels below it.
  unfoldable pub block : ℕ → ℕ
  block zero = 1
  block (suc k) = 1 + routers * block k + others

powers : ℕ → ℕ → ℕ
powers r zero = 1
powers r (suc k) = powers r k * r

next_level :
    (others r b p : ℕ)
    → r * b + (r + 2 + others) ≡ (r + 1) + (r + 1 + others) * p
    → r * (1 + (r + 1) * b + others) + (r + 2 + others) ≡ (r + 1) + (r + 1 + others) * (p * (r + 1))
next_level others r b p h = omega (arith, ap (λ x. x * (r + 1)) h)

block-powers :
    (others r k : ℕ)
    → r * block others (r + 1) k + (r + 2 + others) ≡ (r + 1) + (r + 1 + others) * powers (r + 1) k
unfolding block powers
block-powers others r zero = omega arith
block-powers others r (suc k) =
    next_level others r (block others (r + 1) k) (powers (r + 1) k) (block-powers others r k)

block_single : (others k : ℕ) → block others 1 k ≡ 1 + (others + 1) * k
unfolding block
block_single others zero = omega arith
block_single others (suc k) = omega (arith, block_single others k)

fits : (tmp r p : ℕ) → 0 < p → tmp * (p * r) < 65536 → tmp * r < 65536
fits tmp r p pos h =
    let whole : p ≡ 1 + (p - 1) = omega arith in omega (arith, ap (λ x. tmp * (x * r)) whole)

powers-pos : (r k : ℕ) → 0 < powers (r + 1) k
unfolding powers
powers-pos r zero = omega arith
powers-pos r (suc k) = omega (arith, powers-pos r k)

power_loop-powers :
    (k r tmp : ℕ)
    → tmp * powers (r + 1) k < 65536
    → power_loop k (r + 1) tmp ≡ tmp * powers (r + 1) k
unfolding power_loop powers
power_loop-powers zero r tmp h = omega arith
power_loop-powers (suc k) r tmp h =
    let small : tmp * (r + 1) < 65536 = fits tmp (r + 1) (powers (r + 1) k) (powers-pos r k) h in
    let uncut : tmp * (r + 1) % 65536 ≡ tmp * (r + 1) = omega arith in
    ap (power_loop k (r + 1)) uncut
    ∙ power_loop-powers k r (tmp * (r + 1)) (omega arith)
    ∙ omega arith

scaled : (r p b : ℕ) → p ≤ b → p * r ≤ r * b
scaled r p b h = let whole : b ≡ p + (b - p) = omega arith in omega (arith, ap (λ x. r * x) whole)

powers-le : (others r k : ℕ) → powers r k ≤ block others r k
unfolding block powers
powers-le others r zero = omega arith
powers-le others r (suc k) =
    omega (arith, scaled r (powers r k) (block others r k) (powers-le others r k))

quotient-exact : (r b above : ℕ) → b < 65536 → quotient (suc (suc r)) above (suc r * b + above) ≡ b
unfolding quotient
quotient-exact r b above h =
    let test : leb above (suc r * b + above) ≡ true = ground arith in
    let rest : suc r * b + above - above ≡ 0 + suc r * b = omega arith in
    let whole : (0 + suc r * b) / suc r ≡ b =
      add-mul-div_left 0 b {y = suc r} (omega arith) ∙ omega arith in
    rw test (ap (λ x. x / suc r % 2 ^ 16) rest ∙ ap (λ x. x % 2 ^ 16) whole ∙ omega arith)

large :
    (r others left : ℕ)
    → block others (suc (suc r)) left < 65536
    → quotient
        (suc (suc r))
        (1 + (suc (suc r) + others))
        (suc (suc r) + (suc (suc r) + others) * power_loop left (suc (suc r)) 1)
      ≡ block others (suc (suc r)) left
large r others left small =
    let m = suc (suc r) in
    let e : r + 1 + 1 ≡ m = omega arith in
    let bound : powers (r + 1 + 1) left < 65536 =
      subst (λ x. powers x left < 65536) (sym e) (omega (arith, powers-le others m left)) in
    let power : power_loop left m 1 ≡ powers m left =
      subst (λ x. power_loop left x 1 ≡ powers x left) e
        (power_loop-powers left (r + 1) 1 (omega arith) ∙ omega arith) in
    let sum =
      subst
        (λ x.
          (r + 1) * block others x left + (r + 1 + 2 + others)
          ≡ r + 1 + 1 + (r + 1 + 1 + others) * powers x left)
        e (block-powers others (r + 1) left) in
    let total : m + (m + others) * powers m left
        ≡ suc r * block others m left + (1 + (m + others)) =
      omega (arith, sum) in
    ap (λ p. quotient m (1 + (m + others)) (m + (m + others) * p)) power
    ∙ ap (quotient m (1 + (m + others))) total
    ∙ quotient-exact r (block others m left) (1 + (m + others)) small

abbrev cskip_value : ℕ → ℕ → ℕ → ℕ
cskip_value left children routers =
    if routers == 1
    then (1 + children * left) % 2 ^ 16
    else quotient routers (1 + children) (routers + children * power_loop left routers 1)

cskip_value-block :
    (left others r : ℕ)
    → block others (suc r) left < 65536
    → cskip_value left (suc r + others) (suc r) ≡ block others (suc r) left
cskip_value-block left others zero small = omega (arith, block_single others left)
cskip_value-block left others (suc r) small =
    let test : (suc (suc r) == 1) ≡ false = ground arith in rw test (large r others left small)

-- Let the depth be less than the tree's, let a router take at least one router child and no more than
-- its children, and let the block of its router child fit 16 bits. Then `zb_nwk_daa_calc_cskip` is the size of that block.
pub calc_cskip-block :
    (nib : Nib) (depth : ℕ)
    → depth < nib.max_depth
    → 0 < nib.max_routers
    → nib.max_routers ≤ nib.max_children
    → block (nib.max_children - nib.max_routers) nib.max_routers (nib.max_depth - depth - 1) < 65536
    → calc_cskip nib depth
      ≡ block (nib.max_children - nib.max_routers) nib.max_routers (nib.max_depth - depth - 1)
unfolding calc_cskip line
calc_cskip-block nib depth inner takes few small =
    let left = nib.max_depth - depth - 1 in
    let others = nib.max_children - nib.max_routers in
    let routers : nib.max_routers ≡ suc (nib.max_routers - 1) = omega arith in
    let children : nib.max_children ≡ suc (nib.max_routers - 1) + others = omega arith in
    let test : ltb depth nib.max_depth ≡ true = ground arith in
    rw test (
      ap (λ c. cskip_value left c nib.max_routers) children
      ∙ ap (cskip_value left (suc (nib.max_routers - 1) + others)) routers
      ∙ cskip_value-block left others (nib.max_routers - 1)
          (subst (λ m. block others m left < 65536) routers small)
      ∙ ap (λ m. block others m left) (sym routers))
