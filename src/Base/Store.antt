-- ===== src/Base/Store.antt =====
-- Memory as functions from addresses: pointer fields of structures, and single writes.
use Prim.Native.Nat.{ℕ}
use mathlib.Core.Path.{◌≡◌}
use mathlib.Core.Logic.{◌≢◌}
use native.Mathlib.Omega.{arith}
use zboss.Base.Tests.{◌==◌, if◌then◌else◌}

-- An address; 0 is NULL.
abbrev pub Ptr : Type 0
Ptr = ℕ

abbrev pub null : Ptr
null = 0

abbrev pub update {ℓ} : {A : Type ℓ} → (Ptr → A) → Ptr → A → Ptr → A
update f p v q = if q == p then v else f q

module _ {ℓ} {A : Type ℓ} where
  pub update_self : (f : Ptr → A) (p : Ptr) (v : A) → update f p v p ≡ v
  update_self f p v = ground arith

  pub update_ne : (f : Ptr → A) (p q : Ptr) (v : A) → q ≢ p → update f p v q ≡ f q
  update_ne f p q v h = ground arith
