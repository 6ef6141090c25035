-- ===== src/Encrypt/KeyFreed.antt =====
-- The key of `processencryption` after a run.
use asynchronous_file_system.Common.{ℕ, zero, suc, ◌≡◌, refl, subst, ℤ, none}
use asynchronous_file_system.Kernel.{Kernel, Buffer}
use asynchronous_file_system.Kernel.Monad.{done, oops, steps}
use asynchronous_file_system.Kernel.Returns.{
  OnReturn, Leaves, Leaves-bind, Leaves-pure, Leaves-out_of_fuel, Leaves-run-pure, Leaves-last,
  Leaves-then, Leaves-choose,
}
use asynchronous_file_system.Cipher.{BlockCipher}
use asynchronous_file_system.Encrypt.{
  LoopEnd, ended, returned, key_string, encrypt_loop, after_encryption, encrypt_into,
}

module _ (K : Kernel) (C : BlockCipher K.State)
    (freed : (a : ℕ) (s : K.State) → K.load a (K.kfree a s) ≡ none) where
  -- The key is gone, if the loop returns from its body.
  abbrev AtEnd : ℕ → LoopEnd → K.State → Type 0
  AtEnd key ended s = Unit
  AtEnd key (returned err) s = K.load key s ≡ none

  Leaves-encrypt_loop :
      (fuel : ℕ) (f t : K.File) (key : ℕ) (fsize r w : ℤ)
      → Leaves (AtEnd key) (encrypt_loop K C fuel f t key fsize r w)
  unfolding encrypt_loop
  Leaves-encrypt_loop zero f t key fsize r w = Leaves-out_of_fuel
  Leaves-encrypt_loop (suc fuel) f t key fsize r w =
      Leaves-choose _
        (Leaves-last _ λ page3. Leaves-last _ λ page4. Leaves-last _ λ buff3. Leaves-last _ λ buff4.
          Leaves-last _ λ (n, text). Leaves-last _ λ key_text. Leaves-last _ λ e.
            Leaves-choose _
              (Leaves-then _ (Leaves-then _ (Leaves-run-pure _ (returned e.ret) (freed key))))
              (Leaves-last _
                λ m. Leaves-then _ (Leaves-then _ (Leaves-encrypt_loop fuel f t key _ _ _))))
        (Leaves-pure ended (λ s. tt))

  Leaves-after_encryption :
      (f t : K.File) (room : Buffer) (key : ℕ)
      → Leaves (λ r s. K.load key s ≡ none) (after_encryption K C ended f t room key)
  unfolding after_encryption
  Leaves-after_encryption f t room key =
      Leaves-last _ λ err. Leaves-then _ (Leaves-then _ (Leaves-run-pure _ err (freed key)))

  after_end :
      (end : LoopEnd) (f t : K.File) (room : Buffer) (key : ℕ) (s : K.State)
      → AtEnd key end s
      → OnReturn (λ r s'. K.load key s' ≡ none) (after_encryption K C end f t room key s)
  unfolding after_encryption steps
  after_end (returned err) f t room key s h = h
  after_end ended f t room key s h = (Leaves-after_encryption f t room key).leaves s

  Leaves-encrypt_into :
      (fuel : ℕ) (f t : K.File) (room : Buffer) (key : ℕ) (fsize : ℤ)
      → Leaves (λ r s. K.load key s ≡ none) (encrypt_into K C fuel f t room key fsize)
  unfolding encrypt_into
  Leaves-encrypt_into fuel f t room key fsize = Leaves-last _ λ key_text. Leaves-last _ λ key_store.
      Leaves-last _ λ key_err.
        Leaves-bind _ (Leaves-encrypt_loop fuel f t key fsize _ _)
          λ end s h. after_end end f t room key s h

  oops_without_key :
      (fuel : ℕ) (f t : K.File) (room : Buffer) (key : ℕ) (fsize : ℤ) (s : K.State)
      → K.load key s ≡ none
      → encrypt_into K C fuel f t room key fsize s ≡ oops s
  unfolding encrypt_into key_string steps
  oops_without_key fuel f t room key fsize s gone = rw gone refl

  -- In every kernel in which a freed address holds nothing: when the encryption has returned, with or
  -- without an error, another one with the same key stops at an oops in this state, as the key is freed.
  pub encrypt_into_once :
      (fuel fuel2 : ℕ) (f t f2 t2 : K.File) (room room2 : Buffer) (key : ℕ) (fsize fsize2 r : ℤ)
      (s s' : K.State)
      → encrypt_into K C fuel f t room key fsize s ≡ done r s'
      → encrypt_into K C fuel2 f2 t2 room2 key fsize2 s' ≡ oops s'
  encrypt_into_once fuel fuel2 f t f2 t2 room room2 key fsize fsize2 r s s' e =
      oops_without_key fuel2 f2 t2 room2 key fsize2 s' (
        subst (OnReturn (λ r s. K.load key s ≡ none)) e
          ((Leaves-encrypt_into fuel f t room key fsize).leaves s))
