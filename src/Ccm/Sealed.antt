-- ===== src/Ccm/Sealed.antt =====
-- The encrypted text and tag that stand for a message, and what decryption makes of them.
use zboss.Base.{
  not_both, ℕ, ◌+◌, ◌<◌, ◌≡◌, refl, sym, ap, ap₂, ◌∙◌, arith, true, false, ◌==◌, ◌&&◌, Bool, List,
  [], ◌∷◌, ◌++◌, length, take, drop, take_first, drop_first, take_all, take_beyond, length-append,
  length-take,
}
use zboss.Ccm.{
  xor16, padded, block_ai, ccm_m, memcmp, auth_trans, stream_loop, tag_block, encrypt_trans,
}
use zboss.Ccm.Blocks.{length-xor_loop, length-padded}
use zboss.Ccm.Pads.{length-auth_trans}
use zboss.Ccm.Chain.{string16_short}
use zboss.Ccm.Stream.{length-stream_loop, stream_loop_cancel, tag_block_cancel}

pub memcmp_same : (xs : List ℕ) → memcmp xs xs ≡ true
unfolding memcmp
memcmp_same [] = refl
memcmp_same (x ∷ xs) = let same : (x == x) ≡ true = ground arith in rw same (memcmp_same xs)

both : (a b : Bool) → (a && b) ≡ true → (a ≡ true) × (b ≡ true)
both true b h = (refl, h)
both false b h = absurd (not_both (sym h))

pub memcmp_sound : (xs ys : List ℕ) → memcmp xs ys ≡ true → xs ≡ ys
unfolding memcmp
memcmp_sound [] [] h = refl
memcmp_sound [] (y ∷ ys) h = absurd (not_both (sym h))
memcmp_sound (x ∷ xs) [] h = absurd (not_both (sym h))
memcmp_sound (x ∷ xs) (y ∷ ys) h =
    let (e, rest) = both (x == y) (memcmp xs ys) h in
    ap₂ ◌∷◌ (ground arith) (memcmp_sound xs ys rest)

module _ (aes128 : List ℕ → List ℕ → List ℕ) (key nonce : List ℕ) where
  -- The encrypted text C and the encrypted tag U of a message.
  unfoldable pub sealed : List ℕ → List ℕ → List ℕ
  sealed string_a string_m =
      stream_loop aes128 key (length string_m + 1) nonce string_m 1
      ++ take ccm_m (tag_block aes128 key nonce (auth_trans aes128 key nonce string_a string_m))

  -- `encrypt_trans` of a text whose length has 16 bits.
  encrypt_trans_short :
      (m t : List ℕ)
      → length m < 65536
      → encrypt_trans aes128 key nonce m t
        ≡ stream_loop aes128 key (length m + 1) nonce m 1 ++ tag_block aes128 key nonce t
  unfolding encrypt_trans
  encrypt_trans_short m t short =
      ap (λ p. stream_loop aes128 key (length p + 1) nonce p 1 ++ tag_block aes128 key nonce t)
        (string16_short m short)

  tag_block-take :
      (t : List ℕ) → tag_block aes128 key nonce (take ccm_m t) ≡ tag_block aes128 key nonce t
  unfolding tag_block
  tag_block-take t =
      ap (λ u. xor16 (aes128 key (block_ai nonce 0)) (padded u))
        (take_all ccm_m (take ccm_m t) (omega (arith, length-take ccm_m t)))

  module _ (block : (msg : List ℕ) → length (aes128 key msg) ≡ 16) where
    length-tag_block : (t : List ℕ) → length (tag_block aes128 key nonce t) ≡ 16
    unfolding tag_block xor16
    length-tag_block t =
        length-xor_loop 16 (aes128 key (block_ai nonce 0)) (padded (take ccm_m t))
          (omega (arith, block (block_ai nonce 0)))
          (omega (arith, length-padded (take ccm_m t) (omega (arith, length-take ccm_m t))))

    pub length-sealed : (a m : List ℕ) → length (sealed a m) ≡ length m + ccm_m
    unfolding sealed
    length-sealed a m =
        length-append (stream_loop aes128 key (length m + 1) nonce m 1) _
        ∙ omega (
          arith,
          length-stream_loop aes128 key block nonce (length m + 1) m 1 (omega arith),
          length-take ccm_m (tag_block aes128 key nonce (auth_trans aes128 key nonce a m)),
          length-tag_block (auth_trans aes128 key nonce a m),
        )

    pub length-encrypt_trans :
        (m t : List ℕ)
        → length m < 65536
        → length (encrypt_trans aes128 key nonce m t) ≡ length m + 16
    length-encrypt_trans m t short =
        ap length (encrypt_trans_short m t short)
        ∙ length-append (stream_loop aes128 key (length m + 1) nonce m 1) _
        ∙ omega (
          arith,
          length-stream_loop aes128 key block nonce (length m + 1) m 1 (omega arith),
          length-tag_block t,
        )

    -- The sealed message begins what encryption writes.
    pub take-sealed :
        (a m : List ℕ)
        → length m < 65536
        → take
            (length m + ccm_m)
            (encrypt_trans aes128 key nonce m (auth_trans aes128 key nonce a m))
          ≡ sealed a m
    unfolding sealed
    take-sealed a m short =
        ap (take (length m + ccm_m)) (encrypt_trans_short m _ short)
        ∙ take_beyond (length m) ccm_m _ _
            (length-stream_loop aes128 key block nonce (length m + 1) m 1 (omega arith))

    module _ (string_c u : List ℕ) (n : ℕ) (len_c : length string_c ≡ n) (short : n < 65536) where
      length-stream : length (stream_loop aes128 key (length string_c + 1) nonce string_c 1) ≡ n
      length-stream =
          length-stream_loop aes128 key block nonce (length string_c + 1) string_c 1 (omega arith)
          ∙ len_c

      -- The text and the tag that decryption gets.
      take-encrypt_trans :
          take n (encrypt_trans aes128 key nonce string_c u)
          ≡ stream_loop aes128 key (n + 1) nonce string_c 1
      take-encrypt_trans =
          ap (take n) (encrypt_trans_short string_c u (omega arith))
          ∙ take_first n _ (tag_block aes128 key nonce u) length-stream
          ∙ ap (λ k. stream_loop aes128 key (k + 1) nonce string_c 1) len_c

      drop-encrypt_trans :
          drop n (encrypt_trans aes128 key nonce string_c u) ≡ tag_block aes128 key nonce u
      drop-encrypt_trans =
          ap (drop n) (encrypt_trans_short string_c u (omega arith))
          ∙ drop_first n _ (tag_block aes128 key nonce u) length-stream

      pub length-text : length (take n (encrypt_trans aes128 key nonce string_c u)) ≡ n
      length-text =
          ap length take-encrypt_trans
          ∙ length-stream_loop aes128 key block nonce (n + 1) string_c 1 (omega arith)
          ∙ len_c

      module _ (a : List ℕ) (len_u : length u ≡ ccm_m) where
        -- Decryption opens what was sealed.
        pub sealed_opens :
            (m : List ℕ)
            → string_c ++ u ≡ sealed a m
            → (take n (encrypt_trans aes128 key nonce string_c u) ≡ m)
              × (take ccm_m (drop n (encrypt_trans aes128 key nonce string_c u))
                  ≡ take ccm_m (auth_trans aes128 key nonce a m))
        unfolding sealed
        sealed_opens m h =
            let t = auth_trans aes128 key nonce a m in
            let text = stream_loop aes128 key (length m + 1) nonce m 1 in
            let same : length m ≡ n =
              omega (arith, ap length h, length-append string_c u, length-sealed a m) in
            let len_text : length text ≡ n =
              length-stream_loop aes128 key block nonce (length m + 1) m 1 (omega arith) ∙ same in
            let c_is : string_c ≡ text =
              sym (take_first n string_c u len_c) ∙ ap (take n) h ∙ take_first n text _ len_text in
            let u_is : u ≡ take ccm_m (tag_block aes128 key nonce t) =
              sym (drop_first n string_c u len_c) ∙ ap (drop n) h ∙ drop_first n text _ len_text in
            (
              take-encrypt_trans
                  ∙ ap₂ (λ k c. stream_loop aes128 key (k + 1) nonce c 1) (sym same) c_is
                  ∙ stream_loop_cancel aes128 key block nonce (length m + 1) m 1 (omega arith),
              ap (take ccm_m) drop-encrypt_trans
                  ∙ ap (λ v. take ccm_m (tag_block aes128 key nonce v)) u_is
                  ∙ tag_block_cancel aes128 key block nonce t
                      (omega (arith, length-auth_trans aes128 key block nonce a m)),
            )

        -- What decryption accepts was sealed.
        pub opened_sealed :
            take ccm_m (drop n (encrypt_trans aes128 key nonce string_c u))
              ≡ take ccm_m (
                  auth_trans aes128 key nonce a
                    (take n (encrypt_trans aes128 key nonce string_c u)))
            → string_c ++ u ≡ sealed a (take n (encrypt_trans aes128 key nonce string_c u))
        unfolding sealed
        opened_sealed h =
            let m = take n (encrypt_trans aes128 key nonce string_c u) in
            let t = auth_trans aes128 key nonce a m in
            ap₂ ◌++◌
              (sym (
                ap₂ (λ k x. stream_loop aes128 key (k + 1) nonce x 1) length-text take-encrypt_trans
                ∙ stream_loop_cancel aes128 key block nonce (n + 1) string_c 1 (omega arith)))
              (sym (
                ap (take ccm_m) (sym (tag_block-take t))
                ∙ ap (λ v. take ccm_m (tag_block aes128 key nonce v))
                    (sym h ∙ ap (take ccm_m) drop-encrypt_trans)
                ∙ tag_block_cancel aes128 key block nonce u (omega arith)
                ∙ take_all ccm_m u (omega arith)))
