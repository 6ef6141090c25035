-- ===== src/Encrypt/Ends.antt =====
-- The loop of the encryption ends, whatever the kernel's calls give.
use asynchronous_file_system.Common.{
  ℕ, zero, suc, ◌≤◌, ◌<◌, ◌≡◌, ℤ, pos, negsuc, ltb_ℤ, to_int, true, Option, List, arith,
}
use asynchronous_file_system.Kernel.{Kernel, Buffer}
use asynchronous_file_system.Kernel.Monad.{Pointer, valid, null, err_ptr}
use asynchronous_file_system.Kernel.Finishes.{
  Finishes, finishes_rules, Finishes-bind, Finishes-call, Finishes-choose,
}
use asynchronous_file_system.FileIo.Ends.{
  Finishes-file_open, Finishes-file_close, Finishes-file_write, Finishes-delete_input,
}
use asynchronous_file_system.Cipher.{BlockCipher, cipher_error, clone_encryption}
use asynchronous_file_system.Encrypt.{
  LoopEnd, ended, returned, key_string, read_chunk, name_in_page, size_left, encrypt_loop,
  after_encryption, encrypt_into, encrypt_named, processencryption,
}
use asynchronous_file_system.Encrypt.Seal.{chunks}
use asynchronous_file_system.Encrypt.Chunk.{size_left_lem}

-- How many rounds a size takes.
abbrev pub rounds : ℤ → ℕ
rounds (pos n) = chunks n
rounds (negsuc n) = 0

-- A size that is an `int` takes no more than these.
pub rounds-to_int : (z : ℤ) → rounds (to_int z) ≤ 526_345
rounds-to_int z = ground arith

pub rounds-size_left :
    (fsize : ℤ) (fuel : ℕ)
    → ltb_ℤ (pos 0) fsize ≡ true
    → rounds fsize < suc fuel
    → rounds (size_left fsize) < fuel
rounds-size_left (pos n) fuel more h = rw (size_left_lem n) (ground arith)
rounds-size_left (negsuc n) fuel more h = absurd (ground arith)

module _ (K : Kernel) where
  pub Finishes-key_string : (key : ℕ) → Finishes (key_string K key)
  unfolding key_string
  Finishes-key_string key = search finishes_rules

  pub Finishes-read_chunk :
      (f : K.File) (buf : List ℕ) (n o : ℤ) → Finishes (read_chunk K f buf n o)
  unfolding read_chunk
  Finishes-read_chunk f buf n o = search finishes_rules

  pub Finishes-name_in_page :
      (f : K.File) (filename room : Buffer) (t : ℕ) (suffix : List ℕ)
      → Finishes (name_in_page K f filename room t suffix)
  unfolding name_in_page
  Finishes-name_in_page f filename room t suffix = search finishes_rules

  module _ (C : BlockCipher K.State) where
    Finishes-cipher_error : (dst : List ℕ) (p : Pointer C.Tfm) → Finishes (cipher_error C dst p)
    unfolding cipher_error
    Finishes-cipher_error dst null = search finishes_rules
    Finishes-cipher_error dst (valid t) = search finishes_rules
    Finishes-cipher_error dst (err_ptr e) = search finishes_rules

    Finishes-clone_encryption :
        (key dst src : List ℕ) (n : ℕ) → Finishes (clone_encryption C key dst src n)
    unfolding clone_encryption
    Finishes-clone_encryption key dst src n =
        search (finishes_rules, Finishes-cipher_error) depth 20

    ruleset loop_rules = (
      finishes_rules, Finishes-key_string, Finishes-read_chunk, Finishes-clone_encryption,
      Finishes-file_write,
    )

    Finishes-encrypt_loop :
        (fuel : ℕ) (f t : K.File) (key : ℕ) (fsize r w : ℤ)
        → rounds fsize < fuel
        → Finishes (encrypt_loop K C fuel f t key fsize r w)
    unfolding encrypt_loop
    Finishes-encrypt_loop zero f t key fsize r w h = absurd (omega arith)
    Finishes-encrypt_loop (suc fuel) f t key fsize r w h =
        Finishes-choose _ _ _
          (λ more.
            let next : (r' w' : ℤ)
                → Finishes (encrypt_loop K C fuel f t key (size_left fsize) r' w') =
              λ r' w'.
                Finishes-encrypt_loop fuel f t key (size_left fsize) r' w'
                  (rounds-size_left fsize fuel more h) in
            search (loop_rules, next) depth 24 fits 2000)
          (λ _. search finishes_rules)

    Finishes-after_encryption :
        (end : LoopEnd) (f t : K.File) (room : Buffer) (key : ℕ)
        → Finishes (after_encryption K C end f t room key)
    unfolding after_encryption
    Finishes-after_encryption ended f t room key =
        search (finishes_rules, Finishes-delete_input, Finishes-file_close) depth 20
    Finishes-after_encryption (returned e) f t room key = search finishes_rules

    pub Finishes-encrypt_into :
        (fuel : ℕ) (f t : K.File) (room : Buffer) (key : ℕ) (fsize : ℤ)
        → rounds fsize < fuel
        → Finishes (encrypt_into K C fuel f t room key fsize)
    unfolding encrypt_into
    Finishes-encrypt_into fuel f t room key fsize h =
        Finishes-bind _ _ (Finishes-key_string key) λ key_text.
          Finishes-bind _ _ (Finishes-call _) λ key_store.
            Finishes-bind _ _ (Finishes-call _) λ key_err.
              Finishes-bind _ _ (Finishes-encrypt_loop fuel f t key fsize (pos 0) (pos 0) h)
                λ end. Finishes-after_encryption end f t room key

    Finishes-encrypt_named :
        (fuel : ℕ) (f : K.File) (filename : Buffer) (key : ℕ)
        → 526_345 < fuel
        → Finishes (encrypt_named K C fuel f filename key)
    unfolding encrypt_named
    Finishes-encrypt_named fuel f filename key h =
        let into : (g : K.File) (room : Buffer) (size : ℕ)
            → Finishes (encrypt_into K C fuel f g room key (to_int (pos size))) =
          λ g room size.
            Finishes-encrypt_into fuel f g room key (to_int (pos size))
              (omega (arith, rounds-to_int (pos size))) in
        search (finishes_rules, Finishes-file_open, Finishes-name_in_page, into) depth 20

    -- In every kernel, whatever its calls give and wherever they fail, 526,346 rounds are enough for the
    -- encryption: it does not run out of fuel, as each round takes a chunk off a size that is an `int`.
    pub processencryption_ends :
        (fuel : ℕ) (name : Option (List ℕ)) (key : ℕ)
        → 526_345 < fuel
        → Finishes (processencryption K C fuel name key)
    unfolding processencryption
    processencryption_ends fuel name key h =
        let named : (f : K.File) (b : Buffer) → Finishes (encrypt_named K C fuel f b key) =
          λ f b. Finishes-encrypt_named fuel f b key h in
        search (finishes_rules, Finishes-file_open, named) depth 20
