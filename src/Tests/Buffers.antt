-- ===== src/Tests/Buffers.antt =====
-- Concrete packet buffers, plain and secured with a toy cipher.
use zboss.Base.{
  ℕ, ◌+◌, ◌≤◌, ◌≡◌, refl, arith, false, some, none, List, [], ◌∷◌, ◌++◌, length, map, get_or,
  bit_xor, update, slice, memcpy,
}
use zboss.Bufs.{Buf, initial_alloc, buf_reuse, cut_left, get_buf_tail, assign_param}
use zboss.Bufs.Contents.{IsValid, contents, assign_param-contents}
use zboss.Bufs.Steps.{cuts_left, step-IsValid}
use zboss.Ccm.{
  CcmRet, ret_ok, ret_error, string16, auth_strings, auth_trans, open_frame, encrypt_n_auth,
  decrypt_n_auth, encrypt_trans, stream_loop, tag_block, mac_string, mac_loop, mac_rest, xor16,
  xor_loop, block_a, block_b, block_ai, memcmp,
}
use zboss.Ccm.Frames.{Verdict, decrypt_n_auth-sealed}
use zboss.Ccm.Roundtrip.{decrypt_n_auth-encrypt_n_auth, encrypt_n_auth-bounds}

-- A buffer with 5 octets of data from 3 on.
abbrev packet : Buf
packet = record {
  len = 5;
  data_offset = 3;
  handle = 0;
  mac_hdr_offset = 0;
  status = 0;
  is_in_buf = false;
  encrypt_type = 0;
  use_same_key = false;
  zdo_cmd_no_resp = false;
  mhr_len = 0;
  buf = λ i. i;
}

packet-IsValid : IsValid packet
packet-IsValid = omega arith

abbrev param : List ℕ
param = 7 ∷ 8 ∷ 9 ∷ []

assign_param-contents_example :
    (contents (assign_param packet param) ≡ contents packet)
    × (slice (assign_param packet param).buf (get_buf_tail 3) 3 ≡ param)
    × ((assign_param packet param).data_offset + 5 ≤ get_buf_tail 3)
assign_param-contents_example = assign_param-contents packet param packet-IsValid (omega arith)

step-IsValid_example : IsValid (cut_left packet 2)
step-IsValid_example =
    step-IsValid packet (cut_left packet 2) (cuts_left 2 (omega arith)) packet-IsValid

-- A cipher that adds the key to the block, octet by octet.
abbrev places : List ℕ
places = 0 ∷ 1 ∷ 2 ∷ 3 ∷ 4 ∷ 5 ∷ 6 ∷ 7 ∷ 8 ∷ 9 ∷ 10 ∷ 11 ∷ 12 ∷ 13 ∷ 14 ∷ 15 ∷ []

abbrev toy_aes : List ℕ → List ℕ → List ℕ
toy_aes key msg = map (λ i. bit_xor (get_or msg i 0) (get_or key i 0 + i)) places

toy_block : (msg : List ℕ) → length (toy_aes places msg) ≡ 16
toy_block msg = refl

abbrev nonce : List ℕ
nonce = 1 ∷ 1 ∷ 2 ∷ 3 ∷ 5 ∷ 8 ∷ 13 ∷ 21 ∷ 34 ∷ 55 ∷ 89 ∷ 144 ∷ 233 ∷ []

abbrev header : List ℕ
header = 0x61 ∷ 0x88 ∷ 0x2a ∷ []

abbrev text : List ℕ
text = param ++ places

abbrev crypted : Buf
crypted = (encrypt_n_auth toy_aes places nonce header text packet).1

-- The frame as made, and with one octet of the text changed.
text_run : (open_frame toy_aes places nonce crypted 3 23).0 ≡ ret_ok
unfolding open_frame encrypt_n_auth initial_alloc buf_reuse auth_trans auth_strings string16
    encrypt_trans stream_loop tag_block mac_string mac_loop mac_rest xor16 xor_loop block_a block_b
    block_ai memcmp memcpy slice
text_run = refl

changed_run :
    (open_frame toy_aes places nonce (record crypted { buf = update crypted.buf 65 255 }) 3 23).0
    ≡ ret_error
unfolding open_frame encrypt_n_auth initial_alloc buf_reuse auth_trans auth_strings string16
    encrypt_trans stream_loop tag_block mac_string mac_loop mac_rest xor16 xor_loop block_a block_b
    block_ai memcmp memcpy slice
changed_run = refl

decrypt_n_auth-encrypt_n_auth_example :
    let (ret, frame) = encrypt_n_auth toy_aes places nonce header text packet in
    (ret ≡ ret_ok)
    × (opened : Buf) × (decrypt_n_auth toy_aes places nonce frame 3 23 ≡ some (ret_ok, opened))
    × (contents opened ≡ header ++ text)
decrypt_n_auth-encrypt_n_auth_example =
    decrypt_n_auth-encrypt_n_auth toy_aes places nonce toy_block header text packet (omega arith)

encrypt_n_auth-bounds_example :
    (encrypt_n_auth toy_aes places nonce header text packet).1.buf 148 ≡ 148
encrypt_n_auth-bounds_example =
    encrypt_n_auth-bounds toy_aes places nonce toy_block header text packet 148 (omega arith)
      (omega arith)

-- A string of 137 octets would be written behind the end of the array.
long_run : decrypt_n_auth toy_aes places nonce crypted 3 137 ≡ none
unfolding decrypt_n_auth
long_run = refl

decrypt_n_auth-sealed_example :
    (o : CcmRet × Buf) × (decrypt_n_auth toy_aes places nonce crypted 3 23 ≡ some o)
    × Verdict toy_aes places nonce crypted 3 23 o
unfolding encrypt_n_auth initial_alloc
decrypt_n_auth-sealed_example =
    decrypt_n_auth-sealed toy_aes places nonce toy_block crypted 3 23 (omega arith) (omega arith)
      (omega arith)
