-- ===== src/Encrypt/Laws.antt =====
-- What `processencryption` relies on besides a healthy volume: a cipher that does not fail, and a
-- key that stays where it is until it is freed.
use asynchronous_file_system.Common.{ℕ, ◌%◌, ◌≡◌, ◌≢◌, pos, some, List, ◌++◌, length, drop}
use asynchronous_file_system.Kernel.{Kernel, Buffer}
use asynchronous_file_system.Kernel.Monad.{valid}
use asynchronous_file_system.Kernel.Volume.{Volume}
use asynchronous_file_system.Cipher.{BlockCipher}

module _ (K : Kernel) (V : Volume K) (C : BlockCipher K.State) where
  open V use {contents}

  -- cbc(aes): with a key and an initial vector set, whole blocks are encrypted by `enc`, in as many bytes.
  pub record IsCipher (enc : List ℕ → List ℕ → List ℕ → List ℕ) : Type 0 where
    pub alloc_valid : (s : K.State) → (t : C.Tfm) × ((C.alloc_blkcipher s).0 ≡ valid t)
    pub iv_size : (t : C.Tfm) → C.ivsize t ≡ 16
    pub encrypt_result :
        (t : C.Tfm) (key iv out input : List ℕ) (s : K.State)
        → length input % 16 ≡ 0
        → (C.encrypt t out input (length input) (C.set_iv t iv (C.setkey t key s))).0
          ≡ (pos 0, enc key iv input ++ drop (length input) out)
    pub length-enc :
        (key iv input : List ℕ) → length input % 16 ≡ 0 → length (enc key iv input) ≡ length input

  -- Nothing but the `kfree` of its own address touches the key, `kmalloc` hands out other addresses
  -- and as many bytes as it is asked for, and the cipher's calls touch no file.
  pub record IsKept (key : ℕ) : Type 0 where
    pub kmalloc_length :
        (n : ℕ) (s : K.State) (b : Buffer) → (K.kmalloc n s).0 ≡ some b → length b.bytes ≡ n
    pub kmalloc_fresh :
        (n : ℕ) (s : K.State) (b : Buffer) (bytes : List ℕ)
        → K.load key s ≡ some bytes
        → (K.kmalloc n s).0 ≡ some b
        → b.addr ≢ key
    pub kmalloc_load : (n : ℕ) (s : K.State) → K.load key (K.kmalloc n s).1 ≡ K.load key s
    pub kfree_load : (a : ℕ) (s : K.State) → a ≢ key → K.load key (K.kfree a s) ≡ K.load key s
    pub set_fs_load : (l : ℕ) (s : K.State) → K.load key (K.set_fs l s) ≡ K.load key s
    pub read_load :
        (f : K.File) (b : List ℕ) (n o : ℕ) (s : K.State)
        → K.load key (K.vfs_read f b n o s).1 ≡ K.load key s
    pub write_load :
        (f : K.File) (bytes : List ℕ) (o : ℕ) (s : K.State)
        → K.load key (K.vfs_write f bytes o s).1 ≡ K.load key s
    pub open_load :
        (p : List ℕ) (flags mode : ℕ) (s : K.State)
        → K.load key (K.filp_open p flags mode s).1 ≡ K.load key s
    pub setxattr_load :
        (f : K.File) (name value : List ℕ) (s : K.State)
        → K.load key (K.vfs_setxattr f name value s).1 ≡ K.load key s
    pub setxattr_keeps :
        (f : K.File) (name value : List ℕ) (s : K.State)
        → contents (K.vfs_setxattr f name value s).1 ≡ contents s
    pub alloc_load : (s : K.State) → K.load key (C.alloc_blkcipher s).1 ≡ K.load key s
    pub setkey_load :
        (t : C.Tfm) (k : List ℕ) (s : K.State) → K.load key (C.setkey t k s) ≡ K.load key s
    pub set_iv_load :
        (t : C.Tfm) (v : List ℕ) (s : K.State) → K.load key (C.set_iv t v s) ≡ K.load key s
    pub encrypt_load :
        (t : C.Tfm) (out input : List ℕ) (n : ℕ) (s : K.State)
        → K.load key (C.encrypt t out input n s).1 ≡ K.load key s
    pub free_load : (t : C.Tfm) (s : K.State) → K.load key (C.free_blkcipher t s) ≡ K.load key s
    pub alloc_keeps : (s : K.State) → contents (C.alloc_blkcipher s).1 ≡ contents s
    pub setkey_keeps :
        (t : C.Tfm) (k : List ℕ) (s : K.State) → contents (C.setkey t k s) ≡ contents s
    pub set_iv_keeps :
        (t : C.Tfm) (v : List ℕ) (s : K.State) → contents (C.set_iv t v s) ≡ contents s
    pub encrypt_keeps :
        (t : C.Tfm) (out input : List ℕ) (n : ℕ) (s : K.State)
        → contents (C.encrypt t out input n s).1 ≡ contents s
    pub free_keeps : (t : C.Tfm) (s : K.State) → contents (C.free_blkcipher t s) ≡ contents s
