-- ===== src/Fcs/Equiv.antt =====
-- The table-driven check sequence of mac/mac_fcs.c against the bitwise polynomial division that the
-- table stands for.
use zboss.Base.{
  ℕ, zero, suc, ◌+◌, ◌*◌, ◌/◌, ◌%◌, ◌<◌, ◌≡◌, refl, sym, arith, Bool, true, ◌&&◌, bit_xor, List, [],
  ◌∷◌, get_or, ltb, ◌==◌, if◌then◌else◌, all_below, all_below_sound, All,
}
use zboss.Fcs.{table, fcs_step, fcs_loop}
use zboss.Fcs.Bits.{high-xor_byte, xor-lt_word, mask_byte}

-- One bit of the division by x^16 + x^12 + x^5 + 1, lowest bit first.
pub divide_bit : ℕ → ℕ
divide_bit r = if r % 2 == 1 then bit_xor (r / 2) 0x8408 else r / 2

pub divide_bits : ℕ → ℕ → ℕ
unfolding divide_bit
divide_bits zero r = r
divide_bits (suc n) r = divide_bits n (divide_bit r)

-- The remainder of a whole message, a byte at a time, with no table.
pub remainder : ℕ → List ℕ → ℕ
remainder crc [] = crc
remainder crc (b ∷ bs) = remainder (divide_bits 8 (bit_xor crc b)) bs

row_check : ℕ → ℕ → Bool
row_check h l =
    let r = divide_bits 8 (256 * h + l) in r == bit_xor (get_or table l 0) h && ltb r 65536

table_check : all_below (λ h. all_below (row_check h) 256) 256 ≡ true
unfolding all_below row_check divide_bits table
table_check = refl

row_check_sound :
    (h l : ℕ)
    → row_check h l ≡ true
    → (divide_bits 8 (256 * h + l) ≡ bit_xor (get_or table l 0) h)
      × (divide_bits 8 (256 * h + l) < 65536)
unfolding row_check
row_check_sound h l e = ground arith

-- Eight bits of division of any word are one look-up, and leave a word.
table-divide_bits :
    (x : ℕ)
    → x < 65536
    → (divide_bits 8 x ≡ bit_xor (get_or table (x % 256) 0) (x / 256)) × (divide_bits 8 x < 65536)
table-divide_bits x h =
    let row = all_below_sound _ 256 table_check (x / 256) (omega arith) in
    let cell = all_below_sound _ 256 row (x % 256) (omega arith) in
    let whole : 256 * (x / 256) + x % 256 ≡ x = omega arith in
    rw whole at (row_check_sound (x / 256) (x % 256) cell)

abbrev pub IsByte : ℕ → Type 0
IsByte b = b < 256

fcs_step-divide_bits :
    (crc b : ℕ) → crc < 65536 → b < 256 → fcs_step crc b ≡ divide_bits 8 (bit_xor crc b)
unfolding fcs_step
fcs_step-divide_bits crc b h k =
    rw (mask_byte (bit_xor crc b), ← high-xor_byte crc b k)
      (sym (table-divide_bits (bit_xor crc b) (xor-lt_word crc b h (omega arith))).0)

-- For every message of bytes and every start value that is a word, the table-driven loop computes
-- the remainder of the bitwise division, and the remainder is a word.
pub fcs_loop-remainder :
    (bs : List ℕ) (crc : ℕ)
    → crc < 65536
    → All IsByte bs
    → (fcs_loop crc bs ≡ remainder crc bs) × (fcs_loop crc bs < 65536)
unfolding fcs_loop remainder
fcs_loop-remainder [] crc h k = (refl, h)
fcs_loop-remainder (b ∷ bs) crc h k =
    let word = (table-divide_bits (bit_xor crc b) (xor-lt_word crc b h (omega arith))).1 in
    rw (fcs_step-divide_bits crc b h k.0) (fcs_loop-remainder bs _ word k.1)
