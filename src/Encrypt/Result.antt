-- ===== src/Encrypt/Result.antt =====
-- What `processencryption` does to the files of a healthy volume, from the opened files on.
use asynchronous_file_system.Common.{
  ℕ, ◌-◌, ◌*◌, ◌%◌, ◌^◌, ◌<◌, ◌≡◌, ◌≢◌, ◌∙◌, refl, sym, pos, none, some, List, codes, length, take,
  overlay, update, update_ne, c_string, arith,
}
use asynchronous_file_system.Kernel.{Kernel, Buffer}
use asynchronous_file_system.Kernel.Constants.{page_size}
use asynchronous_file_system.Kernel.Monad.{done, steps}
use asynchronous_file_system.Kernel.Volume.{Volume, IsHealthy}
use asynchronous_file_system.FileIo.{file_close}
use asynchronous_file_system.FileIo.Opens.{delete_input_lem}
use asynchronous_file_system.Cipher.{BlockCipher}
use asynchronous_file_system.Encrypt.{ended, encrypt_loop, after_encryption, encrypt_into}
use asynchronous_file_system.Encrypt.Seal.{chunks, seal, unseal, unseal-seal_all}
use asynchronous_file_system.Encrypt.Laws.{IsCipher, IsKept}
use asynchronous_file_system.Encrypt.Calls.{Same-kmalloc, key_string_lem}
use asynchronous_file_system.Encrypt.Loop.{encrypt_loop_lem}

-- The encrypted file, for the bytes of the key and of the input.
abbrev pub encrypted :
    {S : Type 0} → BlockCipher S → (List ℕ → List ℕ → List ℕ → List ℕ) → List ℕ → List ℕ → List ℕ
encrypted C enc bytes d = seal (enc (c_string bytes) (take 16 C.aes_iv)) (chunks (length d)) d

-- With the inverse of the cipher on whole blocks, read page by page and without the padding, the
-- encrypted file is the file.
pub unseal-encrypted :
    {S : Type 0} (C : BlockCipher S) (enc dec : List ℕ → List ℕ → List ℕ → List ℕ)
    → ((key iv m : List ℕ) → length m % 16 ≡ 0 → length (enc key iv m) ≡ length m)
    → ((key iv m : List ℕ) → length m % 16 ≡ 0 → dec key iv (enc key iv m) ≡ m)
    → (bytes d : List ℕ)
    → unseal (dec (c_string bytes) (take 16 C.aes_iv)) (chunks (length d)) (encrypted C enc bytes d)
      ≡ d
unseal-encrypted C enc dec lengths inverse bytes d =
    unseal-seal_all (enc (c_string bytes) (take 16 C.aes_iv))
      (lengths (c_string bytes) (take 16 C.aes_iv)) (dec (c_string bytes) (take 16 C.aes_iv))
      (inverse (c_string bytes) (take 16 C.aes_iv)) d

module _ (K : Kernel) (V : Volume K) (C : BlockCipher K.State) (key : ℕ) (H : IsHealthy K V)
    (L : IsKept K V C key) (enc : List ℕ → List ℕ → List ℕ → List ℕ) (E : IsCipher K V C enc) where
  open V use {contents, path_of}

  after_encryption_lem :
      (f t : K.File) (room : Buffer) (s : K.State) (d : List ℕ)
      → contents s (path_of f) ≡ some d
      → (s' : K.State) × (after_encryption K C ended f t room key s ≡ done (pos 0) s')
        × (contents s' ≡ update (contents s) (path_of f) none)
  unfolding after_encryption file_close steps
  after_encryption_lem f t room s d e =
      let (r, deleted, left) = delete_input_lem K V H f s d e in
      (
        K.kfree key (K.kfree room.addr (K.filp_close t r)),
        rw deleted refl,
        H.kfree_keeps _ _ ∙ H.kfree_keeps _ _ ∙ H.close_keeps _ _ ∙ left,
      )

  -- On a healthy volume, with a cipher that does not fail and fuel for one round a chunk and one
  -- more, the encryption returns 0, has written the input chunk by chunk, each padded and encrypted,
  -- over what the trash file held, has deleted the input, and has changed no other file.
  pub encrypt_into_seals :
      (fuel : ℕ) (f t : K.File) (room : Buffer) (s : K.State) (d old bytes : List ℕ)
      → path_of f ≢ path_of t
      → contents s (path_of f) ≡ some d
      → contents s (path_of t) ≡ some old
      → K.load key s ≡ some bytes
      → chunks (length d) * page_size < 2 ^ 31
      → chunks (length d) < fuel
      → (s' : K.State) × (encrypt_into K C fuel f t room key (pos (length d)) s ≡ done (pos 0) s')
        × (contents s'
            ≡ update
                (update (contents s) (path_of t) (some (overlay old (encrypted C enc bytes d))))
                (path_of f)
                none)
  unfolding encrypt_into steps
  encrypt_into_seals fuel f t room s d old bytes apart source target there fits enough =
      let n = 8 * length (c_string bytes) in
      let same = Same-kmalloc K V C key H L n s in
      let s1 = (K.kmalloc n s).1 in
      let s2 = (K.vfs_setxattr t (codes "user.key_store") (c_string bytes) s1).1 in
      let files : contents s2 ≡ contents s = L.setxattr_keeps t _ _ s1 ∙ same.files in
      let (s3, runs, finished) =
        encrypt_loop_lem K V C key H L enc E f t d old bytes apart fits fuel 0 s2 (omega arith)
          (record {
            within = omega arith;
            source = rw files source;
            target = rw files target;
            key_there = L.setxattr_load t _ _ s1 ∙ same.at_key ∙ there;
          }) in
      let left : contents s3 (path_of f) ≡ some d = rw finished.written (
        update_ne (contents s2) (path_of t) (path_of f) _ (λ e. apart (sym e)) ∙ rw files source) in
      let (s4, ends, deleted) = after_encryption_lem f t room s3 d left in
      (
        s4,
        rw (key_string_lem K V C key H L bytes s there, looped fuel f t d s2 s3 runs, ends) refl,
        deleted ∙ rw (finished.written, files) refl,
      )
    where
      looped :
          (fuel : ℕ) (f t : K.File) (d : List ℕ) (s2 s3 : K.State)
          → encrypt_loop K C fuel f t key (pos (length d - 0)) (pos 0) (pos 0) s2 ≡ done ended s3
          → encrypt_loop K C fuel f t key (pos (length d)) (pos 0) (pos 0) s2 ≡ done ended s3
      looped fuel f t d s2 s3 e = let same : length d - 0 ≡ length d = omega arith in rw same at e
