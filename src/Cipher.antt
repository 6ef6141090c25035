-- ===== src/Cipher.antt =====
-- `clone_encryption` of sys_xclone2.c, over the kernel's block cipher.
pub mod Padding
pub mod Frame
use asynchronous_file_system.Common.{
  ℕ, ◌+◌, ◌-◌, ◌%◌, ◌^◌, ℤ, pos, List, ◌++◌, length, take, replicate, leb,
}
use asynchronous_file_system.Kernel.Monad.{
  Pointer, valid, null, err_ptr, ptr_err, M, ◌>>=◌, ◌>>◌, pure, call, run, fault, fits, if_bad,
}

-- The crypto API, on the kernel's state.
pub record BlockCipher (S : Type 0) : Type 1 where
  pub Tfm : Type 0
  -- CEPH_AES_IV
  pub aes_iv : List ℕ
  -- crypto_alloc_blkcipher("cbc(aes)", 0, CRYPTO_ALG_ASYNC)
  pub alloc_blkcipher : S → Pointer Tfm × S
  pub setkey : Tfm → List ℕ → S → S
  pub ivsize : Tfm → ℕ
  pub set_iv : Tfm → List ℕ → S → S
  -- the output buffer, the input and its length; the result and what the output buffer holds then
  pub encrypt : Tfm → List ℕ → List ℕ → ℕ → S → (ℤ × List ℕ) × S
  pub free_blkcipher : Tfm → S → S

-- What `clone_encryption` returns and leaves in `dst` and `dst_len`.
pub record Encrypted : Type 0 where
  pub ret : ℤ
  pub dst : List ℕ
  pub dst_len : ℕ

-- 0x10 - (src_len & 0x0f)
unfoldable pub zero_padding : ℕ → ℕ
zero_padding src_len = 0x10 - src_len % 16

-- src_len + zero_padding, a `size_t`
unfoldable pub padded_len : ℕ → ℕ
unfolding zero_padding
padded_len src_len = (src_len + zero_padding src_len) % 2 ^ 64

-- The two entries of `sg_in`.
unfoldable pub padded : List ℕ → ℕ → List ℕ
unfolding zero_padding
padded src src_len = take src_len src ++ replicate (zero_padding src_len) (zero_padding src_len)

module _ {S : Type 0} (C : BlockCipher S) where
  -- Only an error pointer is tested for.
  unfoldable pub cipher_error : List ℕ → Pointer C.Tfm → M S Encrypted
  cipher_error dst null = fault
  cipher_error dst p = pure (record { ret = ptr_err p; dst = dst; dst_len = 0 })

  -- The result of the cipher is printed and dropped. It reads as many bytes as the padded length, which
  -- is 0 for a length that a failed read has made huge.
  unfoldable pub clone_encryption : List ℕ → List ℕ → List ℕ → ℕ → M S Encrypted
  unfolding cipher_error
  clone_encryption key dst src src_len = do
    tfm ← call C.alloc_blkcipher
    if_bad tfm (cipher_error dst) λ t. do
      run (C.setkey t key)
      fits (leb (padded_len src_len) (length dst))
      run (C.set_iv t (take (C.ivsize t) C.aes_iv))
      (ret, out) ← call (C.encrypt t dst (padded src src_len) (padded_len src_len))
      run (C.free_blkcipher t)
      pure (record { ret = pos 0; dst = out; dst_len = padded_len src_len })
