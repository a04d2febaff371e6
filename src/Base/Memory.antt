-- ===== src/Base/Memory.antt =====
-- Arrays as functions of the index: moving a range, copying a string into one, and reading a range
-- as a list.
use Prim.Native.Nat.{ℕ, zero, suc, ◌+◌, ◌-◌, ◌≤◌, ◌<◌}
use mathlib.Core.Path.{◌≡◌, refl, sym, ap, ap₂, ◌∙◌}
use mathlib.Core.Bool.{true, false, ◌&&◌}
use mathlib.Core.List.{List, [], ◌∷◌, ◌++◌}
use native.Mathlib.Omega.{arith}
use zboss.Base.Tests.{ltb, leb, if◌then◌else◌}
use zboss.Base.Store.{update, update_self, update_ne}
use zboss.Base.Lists.{length, get_or, take, take_first}

-- ZB_MEMCPY of a string into an array.
unfoldable pub memcpy : (ℕ → ℕ) → ℕ → List ℕ → ℕ → ℕ
memcpy array dest string i =
    if leb dest i && ltb i (dest + length string) then get_or string (i - dest) 0 else array i

module _ {ℓ} {A : Type ℓ} where
  -- ZB_MEMMOVE of `n` elements within an array.
  unfoldable pub memmove : (ℕ → A) → ℕ → ℕ → ℕ → ℕ → A
  memmove array dest source n i =
      if leb dest i && ltb i (dest + n) then array (source + (i - dest)) else array i

  -- The `n` elements from an index on, as a list.
  unfoldable pub slice : (ℕ → A) → ℕ → ℕ → List A
  slice array start zero = []
  slice array start (suc n) = array start ∷ slice array (start + 1) n

  pub length-slice : (array : ℕ → A) (start n : ℕ) → length (slice array start n) ≡ n
  unfolding slice
  length-slice array start zero = refl
  length-slice array start (suc n) = ap suc (length-slice array (start + 1) n)

  pub slice_ext :
      (f g : ℕ → A) (a b n : ℕ)
      → ((i : ℕ) → i < n → f (a + i) ≡ g (b + i))
      → slice f a n ≡ slice g b n
  unfolding slice
  slice_ext f g a b zero same = refl
  slice_ext f g a b (suc n) same =
      ap₂ ◌∷◌ (ap f (omega arith) ∙ same 0 (omega arith) ∙ ap g (omega arith)) (
        slice_ext f g (a + 1) (b + 1) n
          (λ i h. ap f (omega arith) ∙ same (i + 1) (omega arith) ∙ ap g (omega arith)))

  pub slice-append : (f : ℕ → A) (a m n : ℕ) → slice f a (m + n) ≡ slice f a m ++ slice f (a + m) n
  unfolding slice
  slice-append f a zero n = ap₂ (slice f) (omega arith) (omega arith)
  slice-append f a (suc m) n =
      let next : suc m + n ≡ suc (m + n) = omega arith in
      ap (slice f a) next
      ∙ ap (λ x. f a ∷ x)
          (slice-append f (a + 1) m n ∙ ap (λ x. slice f (a + 1) m ++ slice f x n) (omega arith))

  pub slice-memmove :
      (array : ℕ → A) (dest source n : ℕ)
      → slice (memmove array dest source n) dest n ≡ slice array source n
  unfolding memmove
  slice-memmove array dest source n =
      slice_ext (memmove array dest source n) array dest source n (λ i h.
        let inside : (leb dest (dest + i) && ltb (dest + i) (dest + n)) ≡ true = ground arith in
        rw inside (ap array (omega arith)))

-- Writing behind a range adds an element to it.
pub slice-update {ℓ} :
    {A : Type ℓ} (f : ℕ → A) (n : ℕ) (v : A)
    → slice (update f n v) 0 (n + 1) ≡ slice f 0 n ++ v ∷ []
unfolding slice
slice-update f n v =
    slice-append (update f n v) 0 n 1
    ∙ ap₂ ◌++◌
        (slice_ext (update f n v) f 0 0 n (λ i h. update_ne f n (0 + i) v (λ e. omega arith)))
        (ap (λ x. x ∷ []) (ap (update f n v) (omega arith) ∙ update_self f n v))

slice_string :
    (f : ℕ → ℕ) (a : ℕ) (string : List ℕ)
    → ((i : ℕ) → i < length string → f (a + i) ≡ get_or string i 0)
    → slice f a (length string) ≡ string
unfolding slice
slice_string f a [] same = refl
slice_string f a (x ∷ string) same =
    ap₂ ◌∷◌ (ap f (omega arith) ∙ same 0 (omega arith))
      (slice_string f (a + 1) string (λ i h. ap f (omega arith) ∙ same (suc i) (omega arith)))

-- What was copied is read back, and what lies beside it is not changed.

pub slice-memcpy :
    (array : ℕ → ℕ) (dest : ℕ) (string : List ℕ)
    → slice (memcpy array dest string) dest (length string) ≡ string
unfolding memcpy
slice-memcpy array dest string = slice_string (memcpy array dest string) dest string (λ i h.
    let inside : (leb dest (dest + i) && ltb (dest + i) (dest + length string)) ≡ true =
      ground arith in
    rw inside (ap (λ k. get_or string k 0) (omega arith)))

-- The beginning of what was copied.
pub slice-memcpy_first :
    (array : ℕ → ℕ) (dest n : ℕ) (string : List ℕ)
    → n ≤ length string
    → slice (memcpy array dest string) dest n ≡ take n string
slice-memcpy_first array dest n string h =
    let copied = memcpy array dest string in
    let parts : n + (length string - n) ≡ length string = omega arith in
    sym (
      take_first n (slice copied dest n) (slice copied (dest + n) (length string - n))
        (length-slice copied dest n))
    ∙ ap (take n) (sym (slice-append copied dest n (length string - n)))
    ∙ ap (λ k. take n (slice copied dest k)) parts
    ∙ ap (take n) (slice-memcpy array dest string)

pub slice_before :
    (array : ℕ → ℕ) (dest start n : ℕ) (string : List ℕ)
    → start + n ≤ dest
    → slice (memcpy array dest string) start n ≡ slice array start n
unfolding memcpy
slice_before array dest start n string h =
    slice_ext (memcpy array dest string) array start start n
      (λ i below. let before : leb dest (start + i) ≡ false = ground arith in rw before refl)

pub slice_behind :
    (array : ℕ → ℕ) (dest start n : ℕ) (string : List ℕ)
    → dest + length string ≤ start
    → slice (memcpy array dest string) start n ≡ slice array start n
unfolding memcpy
slice_behind array dest start n string h =
    slice_ext (memcpy array dest string) array start start n (λ i below. ground arith)

pub memcpy_behind :
    (array : ℕ → ℕ) (dest i : ℕ) (string : List ℕ)
    → dest + length string ≤ i
    → memcpy array dest string i ≡ array i
unfolding memcpy
memcpy_behind array dest i string h = ground arith
