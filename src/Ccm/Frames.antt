-- ===== src/Ccm/Frames.antt =====
-- What the two procedures of CCM* do to a packet buffer, and what they promise each other.
use zboss.Base.{
  not_both, ℕ, ◌+◌, ◌-◌, ◌%◌, ◌≤◌, ◌≡◌, refl, sym, ap, ap₂, ◌∙◌, arith, true, false, ◌&&◌, leb,
  some, Bool-cases, ◌⊎◌, inl, inr, List, ◌++◌, length, take, drop, replicate, length-replicate,
  slice, memcpy, length-slice, slice-append, slice-memcpy, slice_before,
}
use zboss.Bufs.{Buf, io_buf_size}
use zboss.Ccm.{
  CcmRet, ret_ok, ret_error, ccm_m, memcmp, auth_trans, encrypt_trans, open_frame, decrypt_n_auth,
}
use zboss.Ccm.Sealed.{memcmp_same, memcmp_sound, sealed, length-text, sealed_opens, opened_sealed}

module _ (aes128 : List ℕ → List ℕ → List ℕ) (key nonce : List ℕ) (b : Buf) (a_len c_len : ℕ) where
  -- What becomes of the string that arrived behind the header: it is the sealed form of the payload
  -- that is left in the buffer, or of no message at all.
  abbrev pub Verdict : CcmRet × Buf → Type 0
  Verdict (ret, b') =
      let string_a = slice b.buf b.data_offset a_len in
      let string_c = slice b.buf (b.data_offset + a_len) c_len in
      let payload = slice b'.buf (b.data_offset + a_len) (c_len - ccm_m) in
      ((ret ≡ ret_ok) × (string_c ≡ sealed aes128 key nonce string_a payload))
      ⊎ ((ret ≡ ret_error)
          × (¬ ((m : List ℕ) × (string_c ≡ sealed aes128 key nonce string_a m)))
          × (payload ≡ replicate (c_len - ccm_m) 0xeb))

module _ (aes128 : List ℕ → List ℕ → List ℕ) (key nonce : List ℕ)
    (block : (msg : List ℕ) → length (aes128 key msg) ≡ 16) where
  module _ (b : Buf) (a_len c_len : ℕ) (has_tag : ccm_m ≤ c_len) (short : c_len ≤ 136) where
    abbrev header : List ℕ
    header = slice b.buf b.data_offset a_len

    abbrev text_len : ℕ
    text_len = c_len - ccm_m

    abbrev cipher : List ℕ
    cipher = slice b.buf (b.data_offset + a_len) text_len

    abbrev tag : List ℕ
    tag = slice b.buf (b.data_offset + a_len + text_len) ccm_m

    abbrev opened : List ℕ
    opened = encrypt_trans aes128 key nonce cipher tag

    cipher-tag : slice b.buf (b.data_offset + a_len) c_len ≡ cipher ++ tag
    cipher-tag =
        let parts : c_len ≡ text_len + ccm_m = omega arith in
        ap (slice b.buf (b.data_offset + a_len)) parts
        ∙ slice-append b.buf (b.data_offset + a_len) text_len ccm_m

    -- The branch taken by the comparison.
    module _
        (same : memcmp
            (take ccm_m (drop text_len opened))
            (take ccm_m (auth_trans aes128 key nonce header (take text_len opened)))
          ≡ true) where
      accepted :
          ((open_frame aes128 key nonce b a_len c_len).0 ≡ ret_ok)
          × ((open_frame aes128 key nonce b a_len c_len).1.buf
              ≡ memcpy b.buf (b.data_offset + a_len) (take text_len opened))
      unfolding open_frame
      accepted = rw same (refl, refl)

      payload_text :
          slice (open_frame aes128 key nonce b a_len c_len).1.buf (b.data_offset + a_len) text_len
          ≡ take text_len opened
      payload_text =
          let full =
            length-text aes128 key nonce block cipher tag text_len
              (length-slice b.buf (b.data_offset + a_len) text_len) (omega arith) in
          ap₂ (λ f n. slice f (b.data_offset + a_len) n) accepted.1 (sym full)
          ∙ slice-memcpy b.buf (b.data_offset + a_len) (take text_len opened)

    module _
        (differs : memcmp
            (take ccm_m (drop text_len opened))
            (take ccm_m (auth_trans aes128 key nonce header (take text_len opened)))
          ≡ false) where
      rejected :
          ((open_frame aes128 key nonce b a_len c_len).0 ≡ ret_error)
          × ((open_frame aes128 key nonce b a_len c_len).1.buf
              ≡ memcpy b.buf (b.data_offset + a_len) (replicate text_len 0xeb))
      unfolding open_frame
      rejected = rw differs (refl, refl)

      payload_erased :
          slice (open_frame aes128 key nonce b a_len c_len).1.buf (b.data_offset + a_len) text_len
          ≡ replicate text_len 0xeb
      payload_erased =
          let full = length-replicate {A = ℕ} text_len 0xeb in
          ap₂ (λ f n. slice f (b.data_offset + a_len) n) rejected.1 (sym full)
          ∙ slice-memcpy b.buf (b.data_offset + a_len) (replicate text_len 0xeb)

    -- A sealed message passes the comparison.
    sealed_same :
        (m : List ℕ)
        → slice b.buf (b.data_offset + a_len) c_len ≡ sealed aes128 key nonce header m
        → (take text_len opened ≡ m)
          × (memcmp
                (take ccm_m (drop text_len opened))
                (take ccm_m (auth_trans aes128 key nonce header (take text_len opened)))
              ≡ true)
    sealed_same m h =
        let (text, t) =
          sealed_opens aes128 key nonce block cipher tag text_len
            (length-slice b.buf (b.data_offset + a_len) text_len) (omega arith) header
            (length-slice b.buf (b.data_offset + a_len + text_len) ccm_m) m (sym cipher-tag ∙ h) in
        (
          text,
          ap₂ (λ u x. memcmp u (take ccm_m (auth_trans aes128 key nonce header x))) t text
              ∙ memcmp_same _,
        )

    pub open_sealed :
        (m : List ℕ)
        → slice b.buf (b.data_offset + a_len) c_len ≡ sealed aes128 key nonce header m
        → ((open_frame aes128 key nonce b a_len c_len).0 ≡ ret_ok)
          × (slice
                (open_frame aes128 key nonce b a_len c_len).1.buf
                (b.data_offset + a_len)
                text_len
              ≡ m)
    open_sealed m h =
        let (text, same) = sealed_same m h in ((accepted same).0, payload_text same ∙ text)

    -- What decryption does in both branches.
    pub open_fields :
        ((open_frame aes128 key nonce b a_len c_len).1.data_offset ≡ b.data_offset)
        × ((open_frame aes128 key nonce b a_len c_len).1.len ≡ (b.len + 256 - ccm_m) % 256)
        × (slice (open_frame aes128 key nonce b a_len c_len).1.buf b.data_offset a_len ≡ header)
    unfolding open_frame
    open_fields =
        elim (Bool-cases (
          memcmp (take ccm_m (drop text_len opened))
            (take ccm_m (auth_trans aes128 key nonce header (take text_len opened))))) [
              | inl same ↦ rw same (
                refl,
                refl,
                slice_before b.buf (b.data_offset + a_len) b.data_offset a_len
                    (take text_len opened) (omega arith),
              )
              | inr differs ↦ rw differs (
                refl,
                refl,
                slice_before b.buf (b.data_offset + a_len) b.data_offset a_len
                    (replicate text_len 0xeb) (omega arith),
              )
            ]

    open_frame-sealed :
        Verdict aes128 key nonce b a_len c_len (open_frame aes128 key nonce b a_len c_len)
    open_frame-sealed =
        elim (Bool-cases (
          memcmp (take ccm_m (drop text_len opened))
            (take ccm_m (auth_trans aes128 key nonce header (take text_len opened))))) [
              | inl same ↦ inl (
                (accepted same).0,
                cipher-tag
                    ∙ opened_sealed aes128 key nonce block cipher tag text_len
                        (length-slice b.buf (b.data_offset + a_len) text_len) (omega arith) header
                        (length-slice b.buf (b.data_offset + a_len + text_len) ccm_m)
                        (memcmp_sound _ _ same)
                    ∙ ap (sealed aes128 key nonce header) (sym (payload_text same)),
              )
              | inr differs ↦ inr (
                (rejected differs).0,
                λ (m, h). not_both (sym (sealed_same m h).1 ∙ differs),
                payload_erased differs,
              )
            ]

    -- The text and a block fit the array `decrypted_text`.
    pub decrypt_n_auth-some :
        decrypt_n_auth aes128 key nonce b a_len c_len
        ≡ some (open_frame aes128 key nonce b a_len c_len)
    unfolding decrypt_n_auth
    decrypt_n_auth-some =
        let room : (leb ccm_m c_len && leb (c_len - ccm_m + 16) io_buf_size) ≡ true =
          ground arith in
        rw room refl

    -- For a key whose cipher blocks have 16 octets and a frame that lies in the packet buffer, whose
    -- ciphertext with the tag has 4 to 136 octets, `zb_ccm_decrypt_n_auth` keeps within its array and
    -- either returns RET_OK, and the payload that it leaves in the buffer is the message whose sealed
    -- form arrived with this header; or it returns RET_ERROR, no message has a sealed form like that, and
    -- every octet of the payload is overwritten with 0xeb.
    pub decrypt_n_auth-sealed :
        b.data_offset + a_len + c_len ≤ io_buf_size
        → (o : CcmRet × Buf) × (decrypt_n_auth aes128 key nonce b a_len c_len ≡ some o)
          × Verdict aes128 key nonce b a_len c_len o
    decrypt_n_auth-sealed inside =
        (open_frame aes128 key nonce b a_len c_len, decrypt_n_auth-some, open_frame-sealed)
