-- ===== src/Fcs/Bits.antt =====
-- Facts about `bit_xor` and `bit_and` at variables that the CRC needs.
use Prim.Native.Nat.{min, digits, bitwise, differ, bit_and-bitwise, bit_xor-bitwise}
use zboss.Base.{
  ℕ, zero, suc, ◌+◌, ◌*◌, ◌/◌, ◌%◌, ◌≤◌, ◌<◌, ◌≡◌, refl, sym, ap₂, ◌∙◌, arith, bit_and, bit_xor,
}

-- The library's digit recursion, whose fuel does not matter once it covers the left word.
module _ (done : ℕ → ℕ) (digit : ℕ → ℕ → ℕ) where
  no_digits : (word fuel : ℕ) → digits done digit fuel 0 word ≡ done word
  no_digits word zero = refl
  no_digits word (suc fuel) = refl

  digits_enough :
      (left right k l : ℕ)
      → left ≤ l
      → left ≤ k
      → digits done digit k left right ≡ digits done digit l left right
  digits_enough zero right k l hl hk = no_digits right k ∙ sym (no_digits right l)
  digits_enough (suc left) right zero l hl hk = absurd (omega arith)
  digits_enough (suc left) right (suc k) zero hl hk = absurd (omega arith)
  digits_enough (suc left) right (suc k) (suc l) hl hk =
      rw (digits_enough (suc left / 2) (right / 2) k l (omega arith) (omega arith))

  last_digit :
      (left right : ℕ)
      → bitwise done digit (suc left) right
        ≡ bitwise done digit (suc left / 2) (right / 2) * 2 + digit (suc left % 2) (right % 2)
  last_digit left right =
      rw (digits_enough (suc left / 2) (right / 2) left (suc left / 2) (omega arith) (omega arith))

pub zero-bit_xor : (b : ℕ) → bit_xor 0 b ≡ b
zero-bit_xor b = bit_xor-bitwise 0 b

pub bit_xor_step :
    (left right : ℕ)
    → bit_xor left right ≡ bit_xor (left / 2) (right / 2) * 2 + differ (left % 2) (right % 2)
bit_xor_step zero right = rw (zero-bit_xor right, zero-bit_xor (right / 2)) (omega arith)
bit_xor_step (suc left) right = simp bit_xor-bitwise (last_digit (λ w. w) differ left right)

zero-bit_and : (word : ℕ) → bit_and 0 word ≡ 0
zero-bit_and word = simp bit_and-bitwise refl

pub bit_and_step :
    (left right : ℕ)
    → bit_and left right ≡ bit_and (left / 2) (right / 2) * 2 + min (left % 2) (right % 2)
bit_and_step (suc left) right = simp bit_and-bitwise (last_digit (λ w. 0) min left right)
bit_and_step zero right = rw (zero-bit_and right, zero-bit_and (right / 2)) (omega arith)

differ-lt : (a b : ℕ) → a < 2 → b < 2 → differ a b < 2
differ-lt zero b h k = k
differ-lt (suc a) zero h k = h
differ-lt (suc zero) (suc zero) h k = omega arith
differ-lt (suc zero) (suc (suc b)) h k = absurd (omega arith)
differ-lt (suc (suc a)) (suc b) h k = absurd (omega arith)

xor-zero_fuel : (n a : ℕ) → a ≤ n → bit_xor a 0 ≡ a
xor-zero_fuel n zero h = refl
xor-zero_fuel zero (suc a) h = absurd (omega arith)
xor-zero_fuel (suc n) (suc a) h =
    ground (arith, bit_xor_step (suc a) 0, xor-zero_fuel n (suc a / 2), differ_zero (suc a % 2))
  where
    differ_zero : (d : ℕ) → differ d 0 ≡ d
    differ_zero zero = refl
    differ_zero (suc d) = refl

pub bit_xor-zero : (a : ℕ) → bit_xor a 0 ≡ a
bit_xor-zero a = xor-zero_fuel a a (omega arith)

half-xor : (a b : ℕ) → bit_xor a b / 2 ≡ bit_xor (a / 2) (b / 2)
half-xor a b =
    omega (arith, bit_xor_step a b, differ-lt (a % 2) (b % 2) (omega arith) (omega arith))

differ_cancel : (d e : ℕ) → d < 2 → e < 2 → differ d (differ d e) ≡ e
differ_cancel zero e h k = refl
differ_cancel (suc zero) zero h k = refl
differ_cancel (suc zero) (suc zero) h k = refl
differ_cancel (suc zero) (suc (suc e)) h k = absurd (omega arith)
differ_cancel (suc (suc d)) e h k = absurd (omega arith)

last-xor : (a b : ℕ) → bit_xor a b % 2 ≡ differ (a % 2) (b % 2)
last-xor a b =
    omega (arith, bit_xor_step a b, differ-lt (a % 2) (b % 2) (omega arith) (omega arith))

xor_cancel_fuel : (n a b : ℕ) → a ≤ n → bit_xor a (bit_xor a b) ≡ b
xor_cancel_fuel n zero b h = zero-bit_xor (bit_xor 0 b) ∙ zero-bit_xor b
xor_cancel_fuel zero (suc a) b h = absurd (omega arith)
xor_cancel_fuel (suc n) (suc a) b h =
    let x = suc a in
    bit_xor_step x (bit_xor x b)
    ∙ rw (half-xor x b, last-xor x b)
        (rw (xor_cancel_fuel n (x / 2) (b / 2) (omega arith))
          (rw (differ_cancel (x % 2) (b % 2) (omega arith) (omega arith)) (omega arith)))

-- A second exclusive or with the same word takes the first one back.
pub bit_xor_cancel : (a b : ℕ) → bit_xor a (bit_xor a b) ≡ b
bit_xor_cancel a b = xor_cancel_fuel a a b (omega arith)

-- `a >> n`, one bit at a time.
abbrev pub halve : ℕ → ℕ → ℕ
halve zero a = a
halve (suc n) a = halve n (a / 2)

-- Shifting right distributes over the exclusive or.
pub halve-xor : (n a b : ℕ) → halve n (bit_xor a b) ≡ bit_xor (halve n a) (halve n b)
halve-xor zero a b = refl
halve-xor (suc n) a b = rw half-xor (halve-xor n (a / 2) (b / 2))

halve_eight : (a : ℕ) → halve 8 a ≡ a / 256
halve_eight a = omega arith

-- A byte changes only the low octet of a word.
pub high-xor_byte : (a b : ℕ) → b < 256 → bit_xor a b / 256 ≡ a / 256
high-xor_byte a b h =
    sym (halve_eight _) ∙ halve-xor 8 a b ∙ rw (halve_eight a, halve_eight b, low) (bit_xor-zero _)
  where
    low : b / 256 ≡ 0
    low = omega arith

pub xor-lt_word : (a b : ℕ) → a < 65536 → b < 65536 → bit_xor a b < 65536
xor-lt_word a b h k = omega (arith, halve-xor 16 a b ∙ ap₂ bit_xor ha hb)
  where
    ha : halve 16 a ≡ 0
    ha = omega arith

    hb : halve 16 b ≡ 0
    hb = omega arith

and-zero_fuel : (n a : ℕ) → a ≤ n → bit_and a 0 ≡ 0
and-zero_fuel n zero h = refl
and-zero_fuel zero (suc a) h = absurd (omega arith)
and-zero_fuel (suc n) (suc a) h =
    omega (arith, bit_and_step (suc a) 0, and-zero_fuel n (suc a / 2) (omega arith))

and_zero : (a : ℕ) → bit_and a 0 ≡ 0
and_zero a = and-zero_fuel a a (omega arith)

odd_mask_step : (a m : ℕ) → m % 2 ≡ 1 → bit_and a m ≡ bit_and (a / 2) (m / 2) * 2 + a % 2
odd_mask_step a m h = omega (arith, bit_and_step a m)

pub mask_byte : (a : ℕ) → bit_and a 0xff ≡ a % 256
mask_byte a = omega (
  arith,
  odd_mask_step a 0xff refl,
  odd_mask_step (a / 2) 0x7f refl,
  odd_mask_step (a / 2 / 2) 0x3f refl,
  odd_mask_step (a / 2 / 2 / 2) 0x1f refl,
  odd_mask_step (a / 2 / 2 / 2 / 2) 0xf refl,
  odd_mask_step (a / 2 / 2 / 2 / 2 / 2) 7 refl,
  odd_mask_step (a / 2 / 2 / 2 / 2 / 2 / 2) 3 refl,
  odd_mask_step (a / 2 / 2 / 2 / 2 / 2 / 2 / 2) 1 refl,
  and_zero (halve 8 a),
)

differ_self : (d e : ℕ) → d ≡ e → differ d e ≡ 0
differ_self zero e h = rw (← h)
differ_self (suc d) zero h = absurd (omega arith)
differ_self (suc d) (suc e) h = differ_self d e (omega arith)

xor-even_step : (a b : ℕ) → a % 2 ≡ b % 2 → bit_xor a b ≡ bit_xor (a / 2) (b / 2) * 2
xor-even_step a b h = omega (arith, bit_xor_step a b, differ_self (a % 2) (b % 2) h)

-- The exclusive or with the low octet clears it.
pub xor_low : (a : ℕ) → bit_xor a (a % 256) % 256 ≡ 0
xor_low a = low a (a % 256) (omega arith)
  where
    low : (a b : ℕ) → a % 256 ≡ b % 256 → bit_xor a b % 256 ≡ 0
    low a b h = omega (
      arith,
      xor-even_step a b (omega arith),
      xor-even_step (a / 2) (b / 2) (omega arith),
      xor-even_step (a / 2 / 2) (b / 2 / 2) (omega arith),
      xor-even_step (a / 2 / 2 / 2) (b / 2 / 2 / 2) (omega arith),
      xor-even_step (a / 2 / 2 / 2 / 2) (b / 2 / 2 / 2 / 2) (omega arith),
      xor-even_step (a / 2 / 2 / 2 / 2 / 2) (b / 2 / 2 / 2 / 2 / 2) (omega arith),
      xor-even_step (a / 2 / 2 / 2 / 2 / 2 / 2) (b / 2 / 2 / 2 / 2 / 2 / 2) (omega arith),
      xor-even_step (a / 2 / 2 / 2 / 2 / 2 / 2 / 2) (b / 2 / 2 / 2 / 2 / 2 / 2 / 2) (omega arith),
    )
