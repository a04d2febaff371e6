-- ===== src/Ccm.antt =====
-- CCM* of secur/secur_ccm.c: authentication by a chain of cipher blocks, encryption by a key stream,
-- and the two procedures that the layers call. The block cipher `aes128`, which the file took from
-- elsewhere, is a parameter. A pointer with a length is a list of octets.
pub mod Blocks
pub mod Pads
pub mod Chain
pub mod Stream
pub mod Sealed
pub mod Frames
pub mod Roundtrip
use zboss.Base.{
  ℕ, zero, suc, ◌+◌, ◌-◌, ◌*◌, ◌/◌, ◌%◌, ◌^◌, Bool, true, false, ◌&&◌, leb, ◌==◌, bit_or, bit_xor,
  if◌then◌else◌, Option, none, some, List, [], ◌∷◌, ◌++◌, length, take, drop, replicate, slice,
  memcpy,
}
use zboss.Bufs.{Buf, io_buf_size, initial_alloc}

-- ZB_CCM_L
abbrev pub ccm_l : ℕ
ccm_l = 2

-- ZB_CCM_NONCE_LEN
abbrev pub ccm_nonce_len : ℕ
ccm_nonce_len = 13

-- ZB_CCM_M
abbrev pub ccm_m : ℕ
ccm_m = 4

-- `zb_ret_t` as far as the two procedures return it.
pub data CcmRet : Type 0 where
  ret_ok : CcmRet
  ret_error : CcmRet

-- ZB_HTOBE16: the 16-bit word, high octet first.
abbrev pub htobe16 : ℕ → List ℕ
htobe16 v = (v / 256 % 256) ∷ (v % 256) ∷ []

-- The string that a pointer and a length of type zb_uint16_t stand for.
unfoldable pub string16 : List ℕ → List ℕ
string16 p = take (length p % 65536) p

-- ZB_MEMSET of a block to 0 and ZB_MEMCPY of the rest into it.
abbrev pub padded : List ℕ → List ℕ
padded p = p ++ replicate (16 - length p) 0

-- The loop of `xor16`; both operands have as many octets.
unfoldable pub xor_loop : ℕ → List ℕ → List ℕ → List ℕ
xor_loop zero v1 v2 = []
xor_loop (suc k) (x ∷ v1) (y ∷ v2) = bit_xor x y ∷ xor_loop k v1 v2
xor_loop (suc k) v1 v2 = []

-- `xor16`
unfoldable pub xor16 : List ℕ → List ℕ → List ℕ
xor16 v1 v2 = xor_loop 16 v1 v2

-- The first block of the chain: Flags || Nonce N || l(m), with
-- `(1<<6) | (ZB_CCM_L - 1) | (((ccm_m - 2)/2) << 3)`.
unfoldable pub block_b : List ℕ → ℕ → List ℕ
block_b nonce string_m_len =
    bit_or (bit_or (2 ^ 6) (ccm_l - 1)) ((ccm_m - 2) / 2 * 2 ^ 3)
    ∷ (take ccm_nonce_len nonce ++ htobe16 string_m_len)

-- The block Ai of the key stream.
unfoldable pub block_ai : List ℕ → ℕ → List ℕ
block_ai nonce i = (ccm_l - 1) ∷ (take ccm_nonce_len nonce ++ htobe16 i)

-- The second block: L(a) and the first 14 octets of `a`.
unfoldable pub block_a : List ℕ → List ℕ
block_a string_a =
    htobe16 (length string_a)
    ++ (if leb (length string_a) (16 - 2)
        then string_a ++ replicate (14 - length string_a) 0
        else take 14 string_a)

-- ZB_MEMCMP of two strings of one length, which is true when they are equal.
unfoldable pub memcmp : List ℕ → List ℕ → Bool
memcmp [] [] = true
memcmp (x ∷ xs) (y ∷ ys) = x == y && memcmp xs ys
memcmp xs ys = false

module _ (aes128 : List ℕ → List ℕ → List ℕ) (key : List ℕ) where
  -- `while (len >= 16)` of `auth_trans`: the block `t` and the rest of the string.
  unfoldable pub mac_loop : ℕ → List ℕ → List ℕ → List ℕ × List ℕ
  mac_loop zero t p = (t, p)
  mac_loop (suc k) t p =
      let rest = mac_loop k (aes128 key (xor16 t p)) (drop 16 p) in
      if leb 16 (length p) then rest else (t, p)

  -- `if (len)` behind it, the rest with padding.
  unfoldable pub mac_rest : List ℕ → List ℕ → List ℕ
  unfolding xor16
  mac_rest t p = if length p == 0 then t else aes128 key (xor16 t (padded p))

  unfoldable pub mac_string : List ℕ → List ℕ → List ℕ
  unfolding mac_loop mac_rest
  mac_string t p = let (t', p') = mac_loop (length p) t p in mac_rest t' p'

  -- `auth_trans` on strings whose lengths have 16 bits: the block `t`.
  unfoldable pub auth_strings : List ℕ → List ℕ → List ℕ → List ℕ
  unfolding xor16 block_b block_a mac_string
  auth_strings nonce string_a string_m =
      let t = aes128 key (block_b nonce (length string_m)) in
      let t = aes128 key (xor16 t (block_a string_a)) in
      let t = mac_string t (drop 14 string_a) in mac_string t string_m

  -- `auth_trans`, whose parameters for the lengths are 16-bit.
  unfoldable pub auth_trans : List ℕ → List ℕ → List ℕ → List ℕ
  unfolding auth_strings string16
  auth_trans nonce string_a string_m = auth_strings nonce (string16 string_a) (string16 string_m)

  -- The loop of `encrypt_trans` and the rest behind it: the octets written, of which the next write,
  -- that of the tag, overwrites the padding.
  unfoldable pub stream_loop : ℕ → List ℕ → List ℕ → ℕ → List ℕ
  stream_loop zero nonce p i = []
  stream_loop (suc k) nonce p i =
      let eai = aes128 key (block_ai nonce i) in
      let rest = stream_loop k nonce (drop 16 p) ((i + 1) % 65536) in
      if leb 16 (length p)
      then xor16 eai p ++ rest
      else if length p == 0
      then []
      else take (length p) (xor16 eai (padded p))

  -- The 16 octets that `encrypt_trans` writes behind the text, of which the first `ccm_m` are the
  -- encrypted tag U.
  unfoldable pub tag_block : List ℕ → List ℕ → List ℕ
  tag_block nonce t = xor16 (aes128 key (block_ai nonce 0)) (padded (take ccm_m t))

  -- `encrypt_trans`, whose parameter for the length is 16-bit: all the octets written.
  unfoldable pub encrypt_trans : List ℕ → List ℕ → List ℕ → List ℕ
  unfolding stream_loop tag_block string16
  encrypt_trans nonce string_m t =
      let p = string16 string_m in stream_loop (length p + 1) nonce p 1 ++ tag_block nonce t

  -- `zb_ccm_encrypt_n_auth`
  unfoldable pub encrypt_n_auth : List ℕ → List ℕ → List ℕ → Buf → CcmRet × Buf
  unfolding auth_trans encrypt_trans
  encrypt_n_auth nonce string_a string_m crypted_text =
      let t = auth_trans nonce string_a string_m in
      let b = initial_alloc crypted_text ((length string_a + length string_m + ccm_m) % 256) in
      let c_text = b.data_offset in
      let encrypted = memcpy b.buf (c_text + length string_a) (encrypt_trans nonce string_m t) in
      (ret_ok, record b { buf = memcpy encrypted b.data_offset string_a })

  -- `zb_ccm_decrypt_n_auth`, where `decrypted_text` holds what is written into it.
  unfoldable pub open_frame : List ℕ → Buf → ℕ → ℕ → CcmRet × Buf
  unfolding auth_trans encrypt_trans
  open_frame nonce b string_a_len string_c_len =
      let string_a = slice b.buf b.data_offset string_a_len in
      let at = b.data_offset + string_a_len in
      let decrypted_text_len = string_c_len - ccm_m in
      let string_c = slice b.buf at decrypted_text_len in
      let tag_u = slice b.buf (at + decrypted_text_len) ccm_m in
      let decrypted = encrypt_trans nonce string_c tag_u in
      let text = take decrypted_text_len decrypted in
      let t = auth_trans nonce string_a text in
      let b' = record b { len = (b.len + 256 - ccm_m) % 256 } in
      if memcmp (take ccm_m (drop decrypted_text_len decrypted)) (take ccm_m t)
      then (ret_ok, record b' { buf = memcpy b.buf at text })
      else (ret_error, record b' { buf = memcpy b.buf at (replicate decrypted_text_len 0xeb) })

  -- `zb_ccm_decrypt_n_auth`. `encrypt_trans` writes the text and then a block of 16 octets into the array
  -- `decrypted_text[ZB_IO_BUF_SIZE]`; none stands for a write behind its end, which is also what comes
  -- of the unsigned `string_c_len - ZB_CCM_M` for a string shorter than the tag.
  unfoldable pub decrypt_n_auth : List ℕ → Buf → ℕ → ℕ → Option (CcmRet × Buf)
  unfolding open_frame
  decrypt_n_auth nonce b string_a_len string_c_len =
      if leb ccm_m string_c_len && leb (string_c_len - ccm_m + 16) io_buf_size
      then some (open_frame nonce b string_a_len string_c_len)
      else none
