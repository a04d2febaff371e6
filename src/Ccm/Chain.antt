-- ===== src/Ccm/Chain.antt =====
-- `auth_trans` computes the chain of cipher blocks over the data that the standard describes.
use zboss.Base.{
  ℕ, ◌+◌, ◌-◌, ◌*◌, ◌/◌, ◌%◌, ◌<◌, ◌≡◌, ap, ◌∙◌, arith, List, [], ◌∷◌, ◌++◌, length, take, take_all,
}
use zboss.Ccm.{string16}
use zboss.Ccm.Pads.{pad16}

-- A number below 2 ^ 16 in two octets, the most significant first.
unfoldable pub two_octets : ℕ → List ℕ
two_octets n = (n / 256) ∷ (n % 256) ∷ []

-- The flags of B0 as the standard has them for a tag of `m` octets and a length field of `l`: nothing
-- reserved, bit 6 for authenticated data, three bits of (m - 2) / 2, three bits of l - 1.
unfoldable pub flags : ℕ → ℕ → ℕ
flags m l = 64 + 8 * ((m - 2) / 2) + (l - 1)

-- The message that the standard authenticates: B0, the padded L(a) || a, and the padded m, for a tag of
-- four octets and lengths of two.
unfoldable pub auth_data : List ℕ → List ℕ → List ℕ → List ℕ
unfolding flags two_octets
auth_data nonce string_a string_m =
    ((flags 4 2 ∷ nonce) ++ two_octets (length string_m))
    ++ (pad16 (two_octets (length string_a) ++ string_a) ++ pad16 string_m)

-- A string whose length has 16 bits.
pub string16_short : (p : List ℕ) → length p < 65536 → string16 p ≡ p
unfolding string16
string16_short p h =
    let uncut : length p % 65536 ≡ length p = omega arith in
    ap (λ n. take n p) uncut ∙ take_all (length p) p (omega arith)
