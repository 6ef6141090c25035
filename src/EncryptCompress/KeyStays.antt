-- ===== src/EncryptCompress/KeyStays.antt =====
-- The compression leaves the key of the encryption where it is.
use asynchronous_file_system.Common.{ℕ, zero, suc, ◌≡◌, ◌≢◌, ◌∙◌, ℤ, Option, some, List}
use asynchronous_file_system.Kernel.{Kernel, Buffer}
use asynchronous_file_system.Kernel.Monad.{call, run}
use asynchronous_file_system.Kernel.Volume.{Volume}
use asynchronous_file_system.Kernel.Triple.{
  Keeps, Any, Keeps-bind, Keeps-then, Keeps-pure, Keeps-run, Keeps-call, Keeps-call_with, Keeps-ask,
  Keeps-fault, Keeps-out_of_fuel, Keeps-deref_eq, Keeps-fits, Keeps-choose, Keeps-if_bad,
}
use asynchronous_file_system.FileIo.{file_close, delete_input}
use asynchronous_file_system.Cipher.{BlockCipher}
use asynchronous_file_system.Encrypt.{read_chunk}
use asynchronous_file_system.Encrypt.Laws.{IsKept}
use asynchronous_file_system.Compress.{
  Compressor, compress_buffer, write_chunk, compress_loop, compress_file,
}

-- The calls that the encryption does not make leave the key alone too.
pub record IsLeft (K : Kernel) (Z : Compressor K.State) (key : ℕ) : Type 0 where
  pub close_load : (f : K.File) (s : K.State) → K.load key (K.filp_close f s) ≡ K.load key s
  pub lock_load : (f : K.File) (s : K.State) → K.load key (K.i_mutex_lock f s) ≡ K.load key s
  pub unlock_load : (f : K.File) (s : K.State) → K.load key (K.i_mutex_unlock f s) ≡ K.load key s
  pub unlink_load : (f : K.File) (s : K.State) → K.load key (K.vfs_unlink f s).1 ≡ K.load key s
  pub alloc_load : (s : K.State) → K.load key (Z.alloc_comp s).1 ≡ K.load key s
  pub compress_load :
      (t : Z.Tfm) (input : List ℕ) (n : ℕ) (s : K.State)
      → K.load key (Z.comp_compress t input n s).1 ≡ K.load key s

module _ (K : Kernel) (V : Volume K) (C : BlockCipher K.State) (key : ℕ) (L : IsKept K V C key)
    (Z : Compressor K.State) (X : IsLeft K Z key) (bytes : List ℕ) where
  -- The key is there.
  abbrev pub HasKey : K.State → Type 0
  HasKey s = K.load key s ≡ some bytes

  abbrev IsOther : Option Buffer → Type 0
  IsOther o = (b : Buffer) → o ≡ some b → b.addr ≢ key

  Keeps-kmalloc : (n : ℕ) → Keeps HasKey IsOther (call (K.kmalloc n))
  Keeps-kmalloc n =
      Keeps-call_with _ λ s i. (L.kmalloc_load n s ∙ i, λ b e. L.kmalloc_fresh n s b bytes i e)

  Keeps-kfree : (a : ℕ) → a ≢ key → Keeps HasKey Any (run (K.kfree a))
  Keeps-kfree a other = Keeps-run _ λ s i. L.kfree_load a s other ∙ i

  Keeps-set_fs : (l : ℕ) → Keeps HasKey Any (run (K.set_fs l))
  Keeps-set_fs l = Keeps-run _ λ s i. L.set_fs_load l s ∙ i

  Keeps-read_chunk :
      (f : K.File) (buf : List ℕ) (n o : ℤ) → Keeps HasKey Any (read_chunk K f buf n o)
  unfolding read_chunk
  Keeps-read_chunk f buf n o = Keeps-bind (Keeps-ask _) λ oldfs _. Keeps-then (Keeps-set_fs _) (
      Keeps-bind (Keeps-call _ λ s i. L.read_load f _ _ _ s ∙ i)
        λ r _. Keeps-then (Keeps-set_fs _) (Keeps-pure _ tt))

  Keeps-compress_buffer :
      (input : List ℕ) (n : ℤ) (out : List ℕ) (m : ℤ)
      → Keeps HasKey Any (compress_buffer Z input n out m)
  unfolding compress_buffer
  Keeps-compress_buffer input n out m = Keeps-bind (Keeps-call _ λ s i. X.alloc_load s ∙ i) λ tfm _.
      Keeps-if_bad tfm (λ _. Keeps-fault)
        λ t _. Keeps-then (Keeps-fits _) (
          Keeps-bind (Keeps-call _ λ s i. X.compress_load t _ _ s ∙ i) λ (err, packed, written) _.
            Keeps-then (Keeps-fits _) (Keeps-choose _ (Keeps-pure _ tt) (Keeps-pure _ tt)))

  Keeps-write_chunk :
      (t : K.File) (tei buff4 : List ℕ) (w : ℤ) → Keeps HasKey Any (write_chunk K Z t tei buff4 w)
  unfolding write_chunk
  Keeps-write_chunk t tei buff4 w = Keeps-bind (Keeps-ask _) λ oldfs _.
      Keeps-then (Keeps-set_fs _) (
        Keeps-bind (Keeps-call _ λ s i. L.write_load t _ _ s ∙ i) λ w1 _.
          Keeps-bind (Keeps-call _ λ s i. L.write_load t _ _ s ∙ i)
            λ w2 _. Keeps-then (Keeps-set_fs _) (Keeps-pure _ tt))

  Keeps-compress_loop :
      (fuel : ℕ) (f t : K.File) (out_len : ℤ) (tei : List ℕ) (err fsize r w : ℤ)
      → Keeps HasKey Any (compress_loop K Z fuel f t out_len tei err fsize r w)
  unfolding compress_loop
  Keeps-compress_loop zero f t out_len tei err fsize r w = Keeps-out_of_fuel
  Keeps-compress_loop (suc fuel) f t out_len tei err fsize r w =
      Keeps-choose _
        (Keeps-bind (Keeps-kmalloc _) λ page3 other3. Keeps-bind (Keeps-kmalloc _) λ page4 other4.
          Keeps-bind (Keeps-deref_eq page3) λ buff3 e3.
            Keeps-bind (Keeps-deref_eq page4) λ buff4 e4.
              let freed3 = Keeps-kfree buff3.addr (other3 buff3 e3) in
              let freed4 = Keeps-kfree buff4.addr (other4 buff4 e4) in
              Keeps-bind (Keeps-read_chunk f buff3.bytes _ r) λ (n, text) _.
                Keeps-bind (Keeps-compress_buffer text n buff4.bytes out_len) λ z _.
                  Keeps-choose _ (Keeps-then freed3 (Keeps-then freed4 (Keeps-pure _ tt))) (
                    Keeps-bind (Keeps-write_chunk t _ z.out_buf w) λ m _.
                      Keeps-then freed3
                        (Keeps-then freed4 (Keeps-compress_loop fuel f t out_len _ _ _ _ _))))
        (Keeps-pure _ tt)

  pub Keeps-compress_file :
      (fuel : ℕ) (f t : K.File) → Keeps HasKey Any (compress_file K Z fuel f t)
  unfolding compress_file
  Keeps-compress_file fuel f t = Keeps-bind (Keeps-ask _) λ tei _.
      Keeps-bind (Keeps-kmalloc _)
        λ out _. Keeps-bind (Keeps-ask _) λ size _. Keeps-compress_loop fuel f t _ tei _ _ _ _

  pub Keeps-file_close : (f : K.File) → Keeps HasKey Any (file_close K f)
  unfolding file_close
  Keeps-file_close f = Keeps-run _ λ s i. X.close_load f s ∙ i

  pub Keeps-delete_input : (f : K.File) → Keeps HasKey Any (delete_input K f)
  unfolding delete_input
  Keeps-delete_input f = Keeps-then (Keeps-file_close f) (
      Keeps-then (Keeps-run _ λ s i. X.lock_load f s ∙ i) (
        Keeps-bind (Keeps-call _ λ s i. X.unlink_load f s ∙ i)
          λ err _. Keeps-then (Keeps-run _ λ s i. X.unlock_load f s ∙ i) (Keeps-pure _ tt)))
