-- ===== src/Ccm/Roundtrip.antt =====
-- What `zb_ccm_encrypt_n_auth` writes, and that `zb_ccm_decrypt_n_auth` gets it back.
use zboss.Base.{
  ℕ, ◌+◌, ◌-◌, ◌/◌, ◌≤◌, ◌<◌, ◌≡◌, refl, sym, ap, ap₂, ◌∙◌, arith, some, List, ◌++◌, length, slice,
  memcpy, slice-append, slice-memcpy, slice-memcpy_first, slice_behind, memcpy_behind,
}
use zboss.Bufs.{Buf, io_buf_size, initial_alloc, buf_reuse}
use zboss.Bufs.Contents.{contents}
use zboss.Ccm.{ret_ok, ccm_m, auth_trans, encrypt_trans, encrypt_n_auth, open_frame, decrypt_n_auth}
use zboss.Ccm.Sealed.{sealed, length-encrypt_trans, take-sealed}
use zboss.Ccm.Frames.{open_sealed, open_fields, decrypt_n_auth-some}

module _ (aes128 : List ℕ → List ℕ → List ℕ) (key nonce : List ℕ)
    (block : (msg : List ℕ) → length (aes128 key msg) ≡ 16) (a m : List ℕ) (b : Buf) where
  -- The octets that are written, and where.
  abbrev written : List ℕ
  written = encrypt_trans aes128 key nonce m (auth_trans aes128 key nonce a m)

  abbrev frame : Buf
  frame = (encrypt_n_auth aes128 key nonce a m b).1

  frame_buf :
      frame.buf ≡ memcpy (memcpy b.buf (frame.data_offset + length a) written) frame.data_offset a
  unfolding encrypt_n_auth initial_alloc buf_reuse
  frame_buf = refl

  encrypt_n_auth-ok : (encrypt_n_auth aes128 key nonce a m b).0 ≡ ret_ok
  unfolding encrypt_n_auth
  encrypt_n_auth-ok = refl

  module _ (room : length a + length m + ccm_m < io_buf_size) where
    frame_len : frame.len ≡ length a + (length m + ccm_m)
    unfolding encrypt_n_auth initial_alloc buf_reuse
    frame_len = omega arith

    frame_place : frame.data_offset ≡ (io_buf_size - (length a + length m + ccm_m)) / 2
    unfolding encrypt_n_auth initial_alloc buf_reuse
    frame_place = omega arith

  frame_header : slice frame.buf frame.data_offset (length a) ≡ a
  frame_header =
      ap (λ f. slice f frame.data_offset (length a)) frame_buf
      ∙ slice-memcpy (memcpy b.buf (frame.data_offset + length a) written) frame.data_offset a

  module _ (room : length a + length m + ccm_m ≤ 125) where
    frame_sealed :
        slice frame.buf (frame.data_offset + length a) (length m + ccm_m)
        ≡ sealed aes128 key nonce a m
    frame_sealed =
        let at = frame.data_offset + length a in
        ap (λ f. slice f at (length m + ccm_m)) frame_buf
        ∙ slice_behind (memcpy b.buf at written) frame.data_offset at (length m + ccm_m) a
            (omega arith)
        ∙ slice-memcpy_first b.buf at (length m + ccm_m) written (
            omega (
              arith,
              length-encrypt_trans aes128 key nonce block m (auth_trans aes128 key nonce a m)
                  (omega arith),
            ))
        ∙ take-sealed aes128 key nonce block a m (omega arith)

    -- For a key whose cipher blocks have 16 octets, and a header and a message that together with the
    -- tag have at most 125 octets, `zb_ccm_encrypt_n_auth` leaves the header and behind it the sealed message as the
    -- contents of the buffer.
    pub encrypt_n_auth-contents :
        contents (encrypt_n_auth aes128 key nonce a m b).1 ≡ a ++ sealed aes128 key nonce a m
    unfolding contents
    encrypt_n_auth-contents =
        ap (slice frame.buf frame.data_offset) (frame_len (omega arith))
        ∙ slice-append frame.buf frame.data_offset (length a) (length m + ccm_m)
        ∙ ap₂ ◌++◌ frame_header frame_sealed

    -- For a key whose cipher blocks have 16 octets, and a header and a message that together with the
    -- tag have at most 125 octets, `zb_ccm_encrypt_n_auth` returns RET_OK, and `zb_ccm_decrypt_n_auth` of
    -- the frame that it made keeps within its array, returns RET_OK and leaves the header and the message
    -- as the contents of the buffer.
    pub decrypt_n_auth-encrypt_n_auth :
        let (ret, crypted) = encrypt_n_auth aes128 key nonce a m b in
        (ret ≡ ret_ok)
        × (opened : Buf) × (decrypt_n_auth aes128 key nonce crypted (length a) (length m + ccm_m)
            ≡ some (ret_ok, opened))
        × (contents opened ≡ a ++ m)
    unfolding contents
    decrypt_n_auth-encrypt_n_auth =
        let c_len = length m + ccm_m in
        let (place, len, header) =
          open_fields aes128 key nonce block frame (length a) c_len (omega arith) (omega arith) in
        let (ok, text) =
          open_sealed aes128 key nonce block frame (length a) c_len (omega arith) (omega arith) m
            (frame_sealed ∙ ap (λ x. sealed aes128 key nonce x m) (sym frame_header)) in
        let text_len : c_len - ccm_m ≡ length m = omega arith in
        let opened = (open_frame aes128 key nonce frame (length a) c_len).1 in
        let whole : opened.len ≡ length a + length m =
          omega (arith, len, frame_len (omega arith)) in
        (
          encrypt_n_auth-ok,
          opened,
          decrypt_n_auth-some aes128 key nonce block frame (length a) c_len (omega arith)
                (omega arith)
              ∙ ap (λ r. some (r, opened)) ok,
          ap₂ (slice opened.buf) place whole
              ∙ slice-append opened.buf frame.data_offset (length a) (length m)
              ∙ ap₂ ◌++◌ (header ∙ frame_header)
                  (ap (slice opened.buf (frame.data_offset + length a)) (sym text_len) ∙ text),
        )

  -- For a key whose cipher blocks have 16 octets, when the header, the message and the tag together
  -- have at most 125 octets, `zb_ccm_encrypt_n_auth` changes nothing behind the end of the buffer.
  pub encrypt_n_auth-bounds :
      (i : ℕ)
      → length a + length m + ccm_m ≤ 125
      → io_buf_size ≤ i
      → (encrypt_n_auth aes128 key nonce a m b).1.buf i ≡ b.buf i
  encrypt_n_auth-bounds i short behind =
      let size =
        length-encrypt_trans aes128 key nonce block m (auth_trans aes128 key nonce a m)
          (omega arith) in
      let place = frame_place (omega arith) in
      let end : frame.data_offset + length a + (length m + 16) ≤ io_buf_size =
        omega (arith, place) in
      ap (λ f. f i) frame_buf
      ∙ memcpy_behind (memcpy b.buf (frame.data_offset + length a) written) frame.data_offset i a
          (omega arith)
      ∙ memcpy_behind b.buf (frame.data_offset + length a) i written (omega (arith, size))
