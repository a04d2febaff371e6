-- ===== src/Ccm/Pads.antt =====
-- `auth_trans` computes a chain of cipher blocks over padded strings.
use zboss.Base.{
  ℕ, zero, suc, ◌+◌, ◌-◌, ◌*◌, ◌/◌, ◌%◌, ◌≤◌, ◌<◌, ◌≡◌, refl, sym, ap, ap₂, ◌∙◌, arith, true, false,
  leb, ◌==◌, List, [], ◌∷◌, ◌++◌, length, take, drop, take-append-drop, drop-append, length-append,
  length-drop, length-take, length-replicate, replicate, append_assoc, append-nil, drop_all,
}
use native.Mathlib.Decide.{dec_lt}
use zboss.Ccm.{
  xor16, htobe16, block_b, block_a, mac_loop, mac_rest, mac_string, string16, auth_strings,
  auth_trans,
}
use zboss.Ccm.Blocks.{xor_loop-append, zeros-xor_loop}

-- The smallest number of zero octets that makes the length divisible by 16.
unfoldable pub pad16 : List ℕ → List ℕ
pad16 xs = xs ++ replicate ((16 - length xs % 16) % 16) 0

module _ (aes128 : List ℕ → List ℕ → List ℕ) (key : List ℕ) where
  -- Cipher block chaining over `n` blocks.
  unfoldable pub chain : ℕ → List ℕ → List ℕ → List ℕ
  chain zero t octets = t
  chain (suc n) t octets = chain n (aes128 key (xor16 t octets)) (drop 16 octets)

  -- CBC with zero initialization vector.
  unfoldable pub cbc_mac : List ℕ → List ℕ
  cbc_mac octets = chain (length octets / 16) (replicate 16 0) octets

-- How many blocks a padded string has.
abbrev blocks : List ℕ → ℕ
blocks xs = (length xs + 15) / 16

length-pad16 : (xs : List ℕ) → length (pad16 xs) ≡ blocks xs * 16
unfolding pad16
length-pad16 xs =
    length-append xs (replicate ((16 - length xs % 16) % 16) 0)
    ∙ omega (arith, length-replicate {A = ℕ} ((16 - length xs % 16) % 16) 0)

-- A padded string is its first block and the padded rest.
drop-pad16 : (xs : List ℕ) → 16 ≤ length xs → drop 16 (pad16 xs) ≡ pad16 (drop 16 xs)
unfolding pad16
drop-pad16 xs h =
    let same : (16 - length xs % 16) % 16 ≡ (16 - length (drop 16 xs) % 16) % 16 =
      omega (arith, length-drop 16 xs) in
    drop-append 16 xs (replicate ((16 - length xs % 16) % 16) 0) h
    ∙ ap (λ n. drop 16 xs ++ replicate n 0) same

module _ (aes128 : List ℕ → List ℕ → List ℕ) (key : List ℕ) where
  xor16-pad16 : (t xs : List ℕ) → 16 ≤ length xs → xor16 t (pad16 xs) ≡ xor16 t xs
  unfolding pad16 xor16
  xor16-pad16 t xs h = xor_loop-append 16 t xs (replicate ((16 - length xs % 16) % 16) 0) h

  chain-append :
      (i j : ℕ) (t xs ys : List ℕ)
      → length xs ≡ i * 16
      → chain aes128 key (i + j) t (xs ++ ys) ≡ chain aes128 key j (chain aes128 key i t xs) ys
  unfolding chain xor16
  chain-append zero j t [] ys h =
      let count : 0 + j ≡ j = omega arith in ap (λ n. chain aes128 key n t ys) count
  chain-append zero j t (x ∷ xs) ys h = absurd (omega arith)
  chain-append (suc i) j t xs ys h =
      let count : suc i + j ≡ suc (i + j) = omega arith in
      ap (λ n. chain aes128 key n t (xs ++ ys)) count
      ∙ ap₂ (λ b d. chain aes128 key (i + j) (aes128 key b) d)
          (xor_loop-append 16 t xs ys (omega arith)) (drop-append 16 xs ys (omega arith))
      ∙ chain-append i j (aes128 key (xor16 t xs)) (drop 16 xs) ys
          (omega (arith, length-drop 16 xs))

  mac_short :
      (k : ℕ) (t p : List ℕ)
      → length p < 16
      → mac_rest aes128 key (mac_loop aes128 key (suc k) t p).0 (mac_loop aes128 key (suc k) t p).1
        ≡ chain aes128 key (blocks p) t (pad16 p)
  unfolding mac_loop mac_rest chain pad16
  mac_short k t [] h = refl
  mac_short k t (x ∷ p) h =
      let whole : leb 16 (length (x ∷ p)) ≡ false = ground arith in
      let more : (length (x ∷ p) == 0) ≡ false = ground arith in
      let one : blocks (x ∷ p) ≡ 1 = omega arith in
      let fill : (16 - length (x ∷ p) % 16) % 16 ≡ 16 - length (x ∷ p) = omega arith in
      rw (whole, more, one, fill) refl

  -- The loop over a string and the rest with padding.
  mac-chain :
      (k : ℕ) (t p : List ℕ)
      → length p ≤ k
      → mac_rest aes128 key (mac_loop aes128 key k t p).0 (mac_loop aes128 key k t p).1
        ≡ chain aes128 key (blocks p) t (pad16 p)
  unfolding mac_loop mac_rest chain pad16
  mac-chain zero t [] h = refl
  mac-chain zero t (x ∷ p) h = absurd (omega arith)
  mac-chain (suc k) t p h = elim (dec_lt (length p) 16) [
    | yes short ↦ mac_short k t p short
    | no long ↦
        let whole : leb 16 (length p) ≡ true = ground arith in
        let count : blocks p ≡ suc (blocks (drop 16 p)) = omega (arith, length-drop 16 p) in
        rw whole
          (mac-chain k (aes128 key (xor16 t p)) (drop 16 p) (omega (arith, length-drop 16 p)))
        ∙ ap₂ (λ b d. chain aes128 key (blocks (drop 16 p)) (aes128 key b) d)
            (sym (xor16-pad16 t p (omega arith))) (sym (drop-pad16 p (omega arith)))
        ∙ ap (λ n. chain aes128 key n t (pad16 p)) (sym count)
  ]

  mac_string-chain :
      (t p : List ℕ) → mac_string aes128 key t p ≡ chain aes128 key (blocks p) t (pad16 p)
  unfolding mac_string
  mac_string-chain t p = mac-chain (length p) t p (omega arith)

  length-chain :
      (block : (msg : List ℕ) → length (aes128 key msg) ≡ 16) (n : ℕ) (t octets : List ℕ)
      → length t ≡ 16
      → length (chain aes128 key n t octets) ≡ 16
  unfolding chain
  length-chain block zero t octets h = h
  length-chain block (suc n) t octets h =
      length-chain block n (aes128 key (xor16 t octets)) (drop 16 octets) (block (xor16 t octets))

  length-auth_strings :
      (block : (msg : List ℕ) → length (aes128 key msg) ≡ 16) (nonce string_a string_m : List ℕ)
      → length (auth_strings aes128 key nonce string_a string_m) ≡ 16
  unfolding auth_strings
  length-auth_strings block nonce string_a string_m =
      ap length (mac_string-chain _ string_m)
      ∙ length-chain block (blocks string_m) _ (pad16 string_m) (
          ap length (mac_string-chain _ (drop 14 string_a))
          ∙ length-chain block (blocks (drop 14 string_a)) _ (pad16 (drop 14 string_a)) (block _))

  pub length-auth_trans :
      (block : (msg : List ℕ) → length (aes128 key msg) ≡ 16) (nonce string_a string_m : List ℕ)
      → length (auth_trans aes128 key nonce string_a string_m) ≡ 16
  unfolding auth_trans
  length-auth_trans block nonce string_a string_m =
      length-auth_strings block nonce (string16 string_a) (string16 string_m)

pad16-block_a : (a : List ℕ) → pad16 (htobe16 (length a) ++ a) ≡ block_a a ++ pad16 (drop 14 a)
unfolding pad16 block_a
pad16-block_a a = elim (dec_lt 14 (length a)) [
  | no short ↦
      let fits : leb (length a) 14 ≡ true = ground arith in
      let fill : (16 - length (htobe16 (length a) ++ a) % 16) % 16 ≡ 14 - length a = omega arith in
      rw (fits, fill, drop_all 14 a (omega arith)) (sym (append-nil _))
  | yes long ↦
      let over : leb (length a) 14 ≡ false = ground arith in
      let fill : (16 - length (htobe16 (length a) ++ a) % 16) % 16
          ≡ (16 - length (drop 14 a) % 16) % 16 =
        omega (arith, length-drop 14 a) in
      rw (over, fill)
        (ap (λ l. htobe16 (length a) ++ (l ++ replicate ((16 - length (drop 14 a) % 16) % 16) 0))
            (sym (take-append-drop 14 a))
          ∙ ap (λ l. htobe16 (length a) ++ l) (append_assoc (take 14 a) (drop 14 a) _))
]

length-block_a : (a : List ℕ) → length (block_a a) ≡ 16
unfolding block_a
length-block_a a = elim (dec_lt 14 (length a)) [
  | no short ↦
      let fits : leb (length a) 14 ≡ true = ground arith in
      rw fits (
        omega (
          arith,
          length-append a (replicate (14 - length a) 0),
          length-replicate {A = ℕ} (14 - length a) 0,
        ))
  | yes long ↦
      let over : leb (length a) 14 ≡ false = ground arith in
      rw over (omega (arith, length-take 14 a))
]

length-block_b : (nonce : List ℕ) (n : ℕ) → length nonce ≡ 13 → length (block_b nonce n) ≡ 16
unfolding block_b
length-block_b nonce n h =
    omega (arith, length-append (take 13 nonce) (htobe16 n), length-take 13 nonce)

module _ (aes128 : List ℕ → List ℕ → List ℕ) (key : List ℕ) where
  first_blocks :
      (i j : ℕ) (t b xs ys : List ℕ)
      → length b ≡ 16
      → length xs ≡ i * 16
      → chain aes128 key (1 + i + j) t ((b ++ xs) ++ ys)
        ≡ chain aes128 key j (chain aes128 key i (aes128 key (xor16 t b)) xs) ys
  unfolding chain
  first_blocks i j t b xs ys h k =
      chain-append aes128 key (1 + i) j t (b ++ xs) ys (omega (arith, length-append b xs))
      ∙ ap (λ u. chain aes128 key j u ys) (chain-append aes128 key 1 i t b xs (omega arith))

  -- The blocks as the code forms them.
  pub auth_strings-cbc_mac :
      (nonce string_a string_m : List ℕ)
      → length nonce ≡ 13
      → auth_strings aes128 key nonce string_a string_m
        ≡ cbc_mac aes128 key (
            block_b nonce (length string_m)
            ++ (pad16 (htobe16 (length string_a) ++ string_a) ++ pad16 string_m))
  unfolding auth_strings cbc_mac chain xor16
  auth_strings-cbc_mac nonce string_a string_m h =
      let b = block_b nonce (length string_m) in
      let d = drop 14 string_a in
      let rest = (block_a string_a ++ pad16 d) ++ pad16 string_m in
      let sixteen = length-block_b nonce (length string_m) h in
      let count : length (b ++ rest) / 16 ≡ 1 + (1 + blocks d + blocks string_m) = omega (
        arith,
        sixteen,
        length-append b rest,
        length-append (block_a string_a ++ pad16 d) (pad16 string_m),
        length-append (block_a string_a) (pad16 d),
        length-block_a string_a,
        length-pad16 d,
        length-pad16 string_m,
      ) in
      mac_string-chain aes128 key _ string_m
      ∙ ap (λ u. chain aes128 key (blocks string_m) u (pad16 string_m))
          (mac_string-chain aes128 key _ d)
      ∙ sym (
          ap
            (λ l.
              chain aes128 key (length (b ++ (l ++ pad16 string_m)) / 16) (replicate 16 0)
                (b ++ (l ++ pad16 string_m)))
            (pad16-block_a string_a)
          ∙ ap (λ n. chain aes128 key n (replicate 16 0) (b ++ rest)) count
          ∙ chain-append aes128 key 1 (1 + blocks d + blocks string_m) (replicate 16 0) b rest
              (omega (arith, sixteen))
          ∙ first_blocks (blocks d) (blocks string_m) _ (block_a string_a) (pad16 d)
              (pad16 string_m) (length-block_a string_a) (length-pad16 d)
          ∙ ap
              (λ u.
                chain aes128 key (blocks string_m)
                  (chain aes128 key (blocks d)
                    (aes128 key (xor16 (aes128 key u) (block_a string_a))) (pad16 d))
                  (pad16 string_m))
              (zeros-xor_loop 16 b sixteen))
