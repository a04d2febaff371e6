-- ===== src/Ccm/Stream.antt =====
-- The key stream of `encrypt_trans`: it keeps the length of a text, and takes itself back.
use zboss.Base.{
  ℕ, zero, suc, ◌+◌, ◌%◌, ◌≤◌, ◌<◌, ◌≡◌, refl, ap, ap₂, ◌∙◌, arith, true, false, leb, ◌==◌, List,
  [], ◌∷◌, ◌++◌, length, take, drop, take-append-drop, drop_first, length-append, length-drop,
  length-take, take_all,
}
use native.Mathlib.Decide.{dec_lt}
use zboss.Ccm.{xor16, padded, ccm_m, block_ai, stream_loop, tag_block}
use zboss.Ccm.Blocks.{
  xor_loop-append, length-xor_loop, xor_loop_cancel, length-padded, xor16-padded_cancel,
}

module _ (aes128 : List ℕ → List ℕ → List ℕ) (key : List ℕ)
    (block : (msg : List ℕ) → length (aes128 key msg) ≡ 16) (nonce : List ℕ) where
  -- One round over a whole block, and the end of the text.
  stream_whole :
      (k : ℕ) (p : List ℕ) (i : ℕ)
      → 16 ≤ length p
      → stream_loop aes128 key (suc k) nonce p i
        ≡ xor16 (aes128 key (block_ai nonce i)) p
          ++ stream_loop aes128 key k nonce (drop 16 p) ((i + 1) % 65536)
  unfolding stream_loop
  stream_whole k p i h = let whole : leb 16 (length p) ≡ true = ground arith in rw whole refl

  stream_rest :
      (k : ℕ) (p : List ℕ) (i : ℕ)
      → length p < 16
      → stream_loop aes128 key (suc k) nonce p i
        ≡ take (length p) (xor16 (aes128 key (block_ai nonce i)) (padded p))
  unfolding stream_loop
  stream_rest k [] i h = refl
  stream_rest k (x ∷ p) i h =
      let whole : leb 16 (length (x ∷ p)) ≡ false = ground arith in
      let more : (length (x ∷ p) == 0) ≡ false = ground arith in rw (whole, more) refl

  pub length-stream_loop :
      (k : ℕ) (p : List ℕ) (i : ℕ)
      → length p < k
      → length (stream_loop aes128 key k nonce p i) ≡ length p
  unfolding xor16
  length-stream_loop zero p i h = absurd (omega arith)
  length-stream_loop (suc k) p i h = elim (dec_lt (length p) 16) [
    | yes short ↦
        ap length (stream_rest k p i short)
        ∙ length-take (length p) (xor16 (aes128 key (block_ai nonce i)) (padded p))
        ∙ omega (
          arith,
          block (block_ai nonce i),
          length-padded p (omega arith),
          length-xor_loop 16 (aes128 key (block_ai nonce i)) (padded p)
              (omega (arith, block (block_ai nonce i)))
              (omega (arith, length-padded p (omega arith))),
        )
    | no long ↦
        ap length (stream_whole k p i (omega arith))
        ∙ length-append (xor16 (aes128 key (block_ai nonce i)) p) _
        ∙ omega (
          arith,
          length-xor_loop 16 (aes128 key (block_ai nonce i)) p
              (omega (arith, block (block_ai nonce i))) (omega arith),
          length-drop 16 p,
          length-stream_loop k (drop 16 p) ((i + 1) % 65536) (omega (arith, length-drop 16 p)),
        )
  ]

  pub stream_loop_cancel :
      (k : ℕ) (p : List ℕ) (i : ℕ)
      → length p < k
      → stream_loop aes128 key k nonce (stream_loop aes128 key k nonce p i) i ≡ p
  unfolding xor16
  stream_loop_cancel zero p i h = absurd (omega arith)
  stream_loop_cancel (suc k) p i h =
      let e = aes128 key (block_ai nonce i) in
      let same = length-stream_loop (suc k) p i h in
      elim (dec_lt (length p) 16) [
        | yes short ↦
            stream_rest k (stream_loop aes128 key (suc k) nonce p i) i (omega arith)
            ∙ ap₂ (λ n q. take n (xor16 e (padded q))) same (stream_rest k p i short)
            ∙ xor16-padded_cancel e p (length p) (block (block_ai nonce i)) refl (omega arith)
        | no long ↦
            let later = stream_loop aes128 key k nonce (drop 16 p) ((i + 1) % 65536) in
            let head : length (xor16 e p) ≡ 16 =
              length-xor_loop 16 e p (omega (arith, block (block_ai nonce i))) (omega arith) in
            stream_whole k (stream_loop aes128 key (suc k) nonce p i) i (omega arith)
            ∙ ap (λ q. xor16 e q ++ stream_loop aes128 key k nonce (drop 16 q) ((i + 1) % 65536))
                (stream_whole k p i (omega arith))
            ∙ ap₂ ◌++◌
                (xor_loop-append 16 e (xor16 e p) later (omega arith)
                  ∙ xor_loop_cancel 16 e p (omega (arith, block (block_ai nonce i))))
                (ap (λ q. stream_loop aes128 key k nonce q ((i + 1) % 65536))
                    (drop_first 16 (xor16 e p) later head)
                  ∙ stream_loop_cancel k (drop 16 p) ((i + 1) % 65536)
                      (omega (arith, length-drop 16 p)))
            ∙ take-append-drop 16 p
      ]

  -- The tag, encrypted twice.
  pub tag_block_cancel :
      (t : List ℕ)
      → ccm_m ≤ length t
      → take ccm_m (tag_block aes128 key nonce (take ccm_m (tag_block aes128 key nonce t)))
        ≡ take ccm_m t
  unfolding tag_block
  tag_block_cancel t h =
      let e = aes128 key (block_ai nonce 0) in
      let u = take ccm_m (xor16 e (padded (take ccm_m t))) in
      let four : length (take ccm_m t) ≡ 4 = omega (arith, length-take ccm_m t) in
      ap (λ q. take ccm_m (xor16 e (padded q)))
        (take_all ccm_m u (omega (arith, length-take ccm_m (xor16 e (padded (take ccm_m t))))))
      ∙ xor16-padded_cancel e (take ccm_m t) 4 (block (block_ai nonce 0)) four (omega arith)
