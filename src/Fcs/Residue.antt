-- ===== src/Fcs/Residue.antt =====
-- What a receiver sees when it runs the loop of mac/mac_fcs.c over a frame and its check sequence.
use zboss.Base.{ℕ, ◌/◌, ◌%◌, ◌<◌, ◌≡◌, refl, sym, ap, ◌∙◌, arith, bit_xor, List, [], ◌∷◌, ◌++◌, All}
use zboss.Fcs.{table, fcs_step, fcs_loop, fcs_add}
use zboss.Fcs.Bits.{mask_byte, xor_low, zero-bit_xor}
use zboss.Fcs.Equiv.{IsByte, fcs_loop-remainder}

fcs_loop-append :
    (crc : ℕ) (xs ys : List ℕ) → fcs_loop crc (xs ++ ys) ≡ fcs_loop (fcs_loop crc xs) ys
unfolding fcs_loop
fcs_loop-append crc [] ys = refl
fcs_loop-append crc (x ∷ xs) ys = fcs_loop-append (fcs_step crc x) xs ys

-- Feeding a register its own low octet shifts it down.
fcs_step_low : (crc : ℕ) → fcs_step crc (crc % 256) ≡ crc / 256
unfolding fcs_step table
fcs_step_low crc = rw (mask_byte (bit_xor crc (crc % 256)), xor_low crc) (zero-bit_xor _)

fcs_step_zero : (crc : ℕ) → crc < 256 → fcs_step crc crc ≡ 0
fcs_step_zero crc h =
    let same : crc % 256 ≡ crc = omega arith in
    let gone : crc / 256 ≡ 0 = omega arith in ap (fcs_step crc) (sym same) ∙ fcs_step_low crc ∙ gone

-- For every frame of bytes, running the loop over the frame followed by its two check octets
-- leaves zero.
pub fcs_loop-fcs_add : (bytes : List ℕ) → All IsByte bytes → fcs_loop 0 (fcs_add bytes) ≡ 0
unfolding fcs_add fcs_loop
fcs_loop-fcs_add bytes h =
    let crc = fcs_loop 0 bytes in
    let word = (fcs_loop-remainder bytes 0 (omega arith) h).1 in
    rw (fcs_loop-append 0 bytes, fcs_step_low crc) (fcs_step_zero (crc / 256) (omega arith))
