-- ===== src/Encrypt/Calls.antt =====
-- The calls of `processencryption` on a healthy volume, with a cipher that does not fail: what each
-- gives, and that it leaves the files and the key alone.
use asynchronous_file_system.Common.{
  ℕ, ◌%◌, ◌^◌, ◌≤◌, ◌<◌, ◌≡◌, ◌≢◌, ◌∙◌, refl, ap, subst, pos, to_int, to_int_small, to_u64,
  to_u64_small, some, List, ◌++◌, length, take, drop, le→leb, splice, update, c_string, arith,
  take-length-append, take_all,
}
use asynchronous_file_system.Kernel.{Kernel, Buffer}
use asynchronous_file_system.Kernel.Constants.{page_size}
use asynchronous_file_system.Kernel.Monad.{done, if_bad, steps}
use asynchronous_file_system.Kernel.Volume.{Volume, IsHealthy, chunk}
use asynchronous_file_system.FileIo.{file_write}
use asynchronous_file_system.Cipher.{BlockCipher, padded, padded_len, clone_encryption}
use asynchronous_file_system.Cipher.Padding.{padded_len_bounds, length-padded}
use asynchronous_file_system.Encrypt.{key_string, read_chunk}
use asynchronous_file_system.Encrypt.Seal.{chunk_size}
use asynchronous_file_system.Encrypt.Chunk.{read_state, read_chunk_runs}
use asynchronous_file_system.Encrypt.Laws.{IsCipher, IsKept}

module _ (K : Kernel) (V : Volume K) (key : ℕ) where
  -- Neither a file nor the key has changed.
  pub record Same (s s' : K.State) : Type 0 where
    pub files : V.contents s' ≡ V.contents s
    pub at_key : K.load key s' ≡ K.load key s

  pub Same-trans : {a b c : K.State} → Same a b → Same b c → Same a c
  Same-trans p q = record { files = q.files ∙ p.files; at_key = q.at_key ∙ p.at_key }

module _ (K : Kernel) (V : Volume K) (C : BlockCipher K.State) (key : ℕ) (H : IsHealthy K V)
    (L : IsKept K V C key) where
  open V use {contents, path_of}

  pub Same-kmalloc : (n : ℕ) (s : K.State) → Same K V key s (K.kmalloc n s).1
  Same-kmalloc n s = record { files = H.kmalloc_keeps n s; at_key = L.kmalloc_load n s }

  pub Same-kfree : (a : ℕ) (s : K.State) → a ≢ key → Same K V key s (K.kfree a s)
  Same-kfree a s other = record { files = H.kfree_keeps a s; at_key = L.kfree_load a s other }

  Same-set_fs : (l : ℕ) (s : K.State) → Same K V key s (K.set_fs l s)
  Same-set_fs l s = record { files = H.set_fs_keeps l s; at_key = L.set_fs_load l s }

  Same-read :
      (f : K.File) (buf : List ℕ) (n o : ℕ) (s : K.State)
      → Same K V key s (K.vfs_read f buf n o s).1
  Same-read f buf n o s = record {
    files = H.read_keeps f buf n o s;
    at_key = L.read_load f buf n o s;
  }

  -- A page from `kmalloc`.
  pub kmalloc_lem :
      (s : K.State) (bytes : List ℕ)
      → K.load key s ≡ some bytes
      → (b : Buffer) × ((K.kmalloc page_size s).0 ≡ some b)
        × (length b.bytes ≡ page_size)
        × (b.addr ≢ key)
  kmalloc_lem s bytes e =
      let (b, found) = H.kmalloc_some page_size s in
      (b, found, L.kmalloc_length page_size s b found, L.kmalloc_fresh page_size s b bytes e found)

  pub read_chunk_lem :
      (f : K.File) (o n : ℕ) (buf : List ℕ) (s : K.State) (d : List ℕ)
      → contents s (path_of f) ≡ some d
      → n < 2 ^ 31
      → o < 2 ^ 31
      → (s' : K.State) × (read_chunk K f buf (pos n) (pos o) s
          ≡ done
              (
                pos (length (chunk K V n o d)),
                chunk K V n o d ++ drop (length (chunk K V n o d)) buf,
              )
              s')
        × Same K V key s s'
  read_chunk_lem f o n buf s d e small near = (
    read_state K V H f buf n o s,
    read_chunk_runs K V H f o n buf s d e small near,
    Same-trans K V key (Same-set_fs _ _)
        (Same-trans K V key (Same-read f buf n o _) (Same-set_fs _ _)),
  )

  pub key_string_lem :
      (bytes : List ℕ) (s : K.State)
      → K.load key s ≡ some bytes
      → key_string K key s ≡ done (c_string bytes) s
  unfolding key_string steps
  key_string_lem bytes s e = rw e refl

  -- A block is written whole.
  pub write_block_lem :
      (f : K.File) (o : ℕ) (bytes rest : List ℕ) (s : K.State) (d : List ℕ)
      → contents s (path_of f) ≡ some d
      → o < 2 ^ 31
      → length bytes ≤ page_size
      → (s' : K.State) × (file_write K f
            (to_u64 (pos o))
            (bytes ++ rest)
            (to_u64 (to_int (pos (length bytes))))
            s
          ≡ done (pos (length bytes)) s')
        × (contents s' ≡ update (contents s) (path_of f) (some (splice d o bytes)))
        × (K.load key s' ≡ K.load key s)
  unfolding file_write steps
  write_block_lem f o bytes rest s d e near short =
      let raised = K.set_fs K.kernel_ds s in
      let held : contents raised (path_of f) ≡ some d = rw (H.set_fs_keeps K.kernel_ds s) e in
      (
        K.set_fs (K.get_fs s) (K.vfs_write f bytes o raised).1,
        rw
            (
              to_u64_small o (omega arith),
              to_int_small (length bytes) (omega arith),
              to_u64_small (length bytes) (omega arith),
              take-length-append bytes rest,
              H.write_result f bytes o raised d held,
              to_int_small (length bytes) (omega arith),
            )
            refl,
        H.set_fs_keeps _ _
            ∙ H.write_contents f bytes o raised d held
            ∙ rw (H.set_fs_keeps K.kernel_ds s) refl,
        L.set_fs_load _ _ ∙ L.write_load f bytes o raised ∙ L.set_fs_load K.kernel_ds s,
      )

  -- The padding reads only the chunk.
  padded-append :
      (piece rest : List ℕ) → padded (piece ++ rest) (length piece) ≡ padded piece (length piece)
  unfolding padded
  padded-append piece rest =
      rw (take-length-append piece rest, take_all (length piece) piece (omega arith)) refl

  module _ (enc : List ℕ → List ℕ → List ℕ → List ℕ) (E : IsCipher K V C enc) where
    -- The key and the initial vector that every chunk is encrypted with.
    abbrev pub with_key : List ℕ → List ℕ → List ℕ
    with_key text = enc text (take 16 C.aes_iv)

    Same-cipher :
        (text dst message : List ℕ) (n : ℕ) (t : C.Tfm) (s : K.State)
        → let keyed = C.set_iv t (take 16 C.aes_iv) (C.setkey t text (C.alloc_blkcipher s).1) in
          Same K V key s (C.free_blkcipher t (C.encrypt t dst message n keyed).1)
    Same-cipher text dst message n t s = record {
      files =
          L.free_keeps _ _
          ∙ L.encrypt_keeps _ _ _ _ _
          ∙ L.set_iv_keeps _ _ _
          ∙ L.setkey_keeps _ _ _
          ∙ L.alloc_keeps s;
      at_key =
          L.free_load _ _
          ∙ L.encrypt_load _ _ _ _ _
          ∙ L.set_iv_load _ _ _
          ∙ L.setkey_load _ _ _
          ∙ L.alloc_load s;
    }

    pub clone_encryption_lem :
        (text dst piece rest : List ℕ) (s : K.State)
        → length piece ≤ chunk_size
        → length dst ≡ page_size
        → (s' : K.State) × (clone_encryption C text dst (piece ++ rest) (length piece) s
            ≡ done
                (record {
                  ret = pos 0;
                  dst =
                      with_key text (padded piece (length piece))
                      ++ drop (padded_len (length piece)) dst;
                  dst_len = padded_len (length piece);
                })
                s')
          × Same K V key s s'
    unfolding clone_encryption if_bad steps
    clone_encryption_lem text dst piece rest s short page =
        let (t, allocated) = E.alloc_valid s in
        let n = padded_len (length piece) in
        let message = padded piece (length piece) in
        let keyed = C.set_iv t (take 16 C.aes_iv) (C.setkey t text (C.alloc_blkcipher s).1) in
        let bounds = padded_len_bounds (length piece) short in
        let sized : length message ≡ n = length-padded piece short in
        let encrypted : (C.encrypt t dst message n keyed).0
            ≡ (pos 0, with_key text message ++ drop n dst) =
          subst
            (λ (k : ℕ).
              (C.encrypt t dst message k keyed).0 ≡ (pos 0, with_key text message ++ drop k dst))
            sized
            (E.encrypt_result t text (take 16 C.aes_iv) dst message (C.alloc_blkcipher s).1
              (ap (λ (k : ℕ). k % 16) sized ∙ bounds.1)) in
        (
          C.free_blkcipher t (C.encrypt t dst message n keyed).1,
          rw
              (
                allocated,
                padded-append piece rest,
                E.iv_size t,
                le→leb n (length dst) (omega (arith, bounds.0)),
                encrypted,
              )
              refl,
          Same-cipher text dst message n t s,
        )
