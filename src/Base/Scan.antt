-- ===== src/Base/Scan.antt =====
-- The first place of a range that passes a test.
use Prim.Native.Nat.{ℕ, suc, ◌+◌, ◌≤◌, ◌<◌}
use mathlib.Core.Path.{◌≡◌, sym, ◌∙◌}
use mathlib.Core.Bool.{Bool, true, false}
use native.Mathlib.Omega.{arith}
use native.Mathlib.Decide.{dec_lt}
use zboss.Base.Tests.{not_both}

-- Among the `k` places from `i` on, `r` is the first that passes, or the end.
pub record First (test : ℕ → Bool) (i k r : ℕ) : Type 0 where
  pub from : i ≤ r
  pub upto : r ≤ i + k
  pub before : (j : ℕ) → i ≤ j → j < r → test j ≡ false
  pub passes : r < i + k → test r ≡ true

pub First-end : (test : ℕ → Bool) (i : ℕ) → First test i 0 i
First-end test i = record {
  from = omega arith;
  upto = omega arith;
  before = λ j low high. absurd (omega arith);
  passes = λ h. absurd (omega arith);
}

pub First-here : (test : ℕ → Bool) (i k : ℕ) → test i ≡ true → First test i (suc k) i
First-here test i k h = record {
  from = omega arith;
  upto = omega arith;
  before = λ j low high. absurd (omega arith);
  passes = λ _. h;
}

pub First-later :
    (test : ℕ → Bool) (i k r : ℕ) → test i ≡ false → First test (i + 1) k r → First test i (suc k) r
First-later test i k r miss f =
    let low = f.from in
    let high = f.upto in
    record {
      from = omega arith;
      upto = omega arith;
      before = λ j a b. elim (dec_lt i j) [
        | yes later ↦ f.before j (omega arith) b
        | no here ↦ ground arith
      ];
      passes = λ h. f.passes (omega arith);
    }

-- There is one such place.
pub First-unique : (test : ℕ → Bool) (i k r q : ℕ) → First test i k r → First test i k q → r ≡ q
First-unique test i k r q f g =
    let f_low = f.from in
    let f_high = f.upto in
    let g_low = g.from in
    let g_high = g.upto in
    elim (dec_lt r q) [
      | yes less ↦ absurd (not_both (sym (f.passes (omega arith)) ∙ g.before r (omega arith) less))
      | no p ↦ elim (dec_lt q r) [
        | yes less ↦
            absurd (not_both (sym (g.passes (omega arith)) ∙ f.before q (omega arith) less))
        | no p' ↦ omega arith
      ]
    ]
