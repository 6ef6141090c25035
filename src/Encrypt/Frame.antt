-- ===== src/Encrypt/Frame.antt =====
-- `processencryption` leaves alone every file but its input and those whose paths begin with /usr.
use asynchronous_file_system.Common.{
  ℕ, zero, suc, ◌≡◌, ◌≢◌, refl, sym, ap, ◌∙◌, ℤ, Option, some, List, codes, take,
}
use asynchronous_file_system.Kernel.{Kernel, Buffer}
use asynchronous_file_system.Kernel.Volume.{Volume}
use asynchronous_file_system.Kernel.Contained.{IsContained, Untouched}
use asynchronous_file_system.Kernel.Triple.{
  Keeps, Any, Keeps-bind, Keeps-then, Keeps-pure, Keeps-call, Keeps-ask, Keeps-out_of_fuel,
  Keeps-deref, Keeps-deref_eq, Keeps-fits, Keeps-choose, Keeps-if_null, Keeps-if_bad,
}
use asynchronous_file_system.FileIo.Frame.{
  by_equation, Keeps-set_fs, Keeps-kmalloc, Keeps-kfree, Keeps-file_close, Keeps-file_open,
  Keeps-file_creat, Keeps-file_write, Keeps-delete_input,
}
use asynchronous_file_system.TrashName.{stamp}
use asynchronous_file_system.Cipher.{BlockCipher}
use asynchronous_file_system.Cipher.Frame.{IsQuiet, Keeps-clone_encryption}
use asynchronous_file_system.Encrypt.{
  LoopEnd, ended, returned, key_string, read_chunk, name_in_page, encrypt_loop, after_encryption,
  encrypt_into, encrypt_named, processencryption,
}

-- A path that begins with /usr, as those in the trash folder do.
abbrev pub IsUsr : List ℕ → Type 0
IsUsr p = take 4 p ≡ codes "/usr"

module _ (K : Kernel) (V : Volume K) (W : IsContained K V) (q : List ℕ) (c : Option (List ℕ)) where
  abbrev I : K.State → Type 0
  I = Untouched K V q c

  Keeps-key_string : (key : ℕ) → Keeps I Any (key_string K key)
  unfolding key_string
  Keeps-key_string key =
      Keeps-bind (Keeps-ask _) λ found _. Keeps-bind (Keeps-deref found) λ bytes _. Keeps-pure _ tt

  pub Keeps-read_chunk :
      (f : K.File) (buf : List ℕ) (n o : ℤ) → Keeps (Untouched K V q c) Any (read_chunk K f buf n o)
  unfolding read_chunk
  Keeps-read_chunk f buf n o = Keeps-bind (Keeps-ask _) λ oldfs _.
      Keeps-then (Keeps-set_fs K V W q c _) (
        Keeps-bind (Keeps-call _ λ s i. by_equation K V W q c (W.read_keeps f buf _ _ s) i)
          λ r _. Keeps-then (Keeps-set_fs K V W q c _) (Keeps-pure _ tt))

  pub Keeps-name_in_page :
      (f : K.File) (filename room : Buffer) (t : ℕ) (suffix : List ℕ)
      → Keeps (Untouched K V q c) IsUsr (name_in_page K f filename room t suffix)
  unfolding name_in_page stamp
  Keeps-name_in_page f filename room t suffix = Keeps-bind (Keeps-ask _) λ found _.
      Keeps-bind (Keeps-deref found) λ path _. Keeps-then (Keeps-fits _) (Keeps-pure _ refl)

  module _ (C : BlockCipher K.State) (Q : IsQuiet K V C) where
    Keeps-encrypt_loop :
        (fuel : ℕ) (f t : K.File) (key : ℕ) (fsize r w : ℤ)
        → q ≢ V.path_of t
        → Keeps I Any (encrypt_loop K C fuel f t key fsize r w)
    unfolding encrypt_loop
    Keeps-encrypt_loop zero f t key fsize r w other = Keeps-out_of_fuel
    Keeps-encrypt_loop (suc fuel) f t key fsize r w other =
        Keeps-choose _
          (Keeps-bind (Keeps-kmalloc K V W q c _) λ page3 _.
            Keeps-bind (Keeps-kmalloc K V W q c _) λ page4 _.
              Keeps-bind (Keeps-deref page3) λ buff3 _. Keeps-bind (Keeps-deref page4) λ buff4 _.
                Keeps-bind (Keeps-read_chunk f buff3.bytes _ r) λ (n, text) _.
                  Keeps-bind (Keeps-key_string key) λ key_text _.
                    Keeps-bind (Keeps-clone_encryption K V C Q q c key_text buff4.bytes text _)
                      λ e _.
                        Keeps-choose _
                          (Keeps-then (Keeps-kfree K V W q c _) (
                            Keeps-then (Keeps-kfree K V W q c _)
                              (Keeps-then (Keeps-kfree K V W q c _) (Keeps-pure _ tt))))
                          (Keeps-bind (Keeps-file_write K V W q c t _ _ _ other) λ m _.
                            Keeps-then (Keeps-kfree K V W q c _) (
                              Keeps-then (Keeps-kfree K V W q c _)
                                (Keeps-encrypt_loop fuel f t key _ _ _ other))))
          (Keeps-pure _ tt)

    Keeps-after_encryption :
        (end : LoopEnd) (f t : K.File) (room : Buffer) (key : ℕ)
        → q ≢ V.path_of f
        → Keeps I Any (after_encryption K C end f t room key)
    unfolding after_encryption
    Keeps-after_encryption (returned err) f t room key other = Keeps-pure _ tt
    Keeps-after_encryption ended f t room key other =
        Keeps-bind (Keeps-delete_input K V W q c f other) λ err _.
          Keeps-then (Keeps-file_close K V W q c t) (
            Keeps-then (Keeps-kfree K V W q c _)
              (Keeps-then (Keeps-kfree K V W q c _) (Keeps-pure _ tt)))

    pub Keeps-encrypt_into :
        (fuel : ℕ) (f t : K.File) (room : Buffer) (key : ℕ) (fsize : ℤ)
        → q ≢ V.path_of f
        → q ≢ V.path_of t
        → Keeps (Untouched K V q c) Any (encrypt_into K C fuel f t room key fsize)
    unfolding encrypt_into
    Keeps-encrypt_into fuel f t room key fsize not_f not_t =
        Keeps-bind (Keeps-key_string key) λ key_text _.
          Keeps-bind (Keeps-kmalloc K V W q c _) λ key_store _.
            Keeps-bind
              (Keeps-call _ λ s i. by_equation K V W q c (W.setxattr_keeps t _ key_text s) i)
              λ key_err _.
                Keeps-bind (Keeps-encrypt_loop fuel f t key fsize _ _ not_t)
                  λ end _. Keeps-after_encryption end f t room key not_f

    Keeps-encrypt_named :
        (fuel : ℕ) (f : K.File) (filename : Buffer) (key : ℕ)
        → q ≢ V.path_of f
        → ¬ IsUsr q
        → Keeps I Any (encrypt_named K C fuel f filename key)
    unfolding encrypt_named
    Keeps-encrypt_named fuel f filename key other outside = Keeps-bind (Keeps-ask _) λ t _.
        Keeps-bind (Keeps-kmalloc K V W q c _) λ page _. Keeps-bind (Keeps-deref page) λ room _.
          Keeps-bind (Keeps-name_in_page f filename room t _) λ name in_usr.
            Keeps-bind (Keeps-ask _) λ size _.
              Keeps-bind (Keeps-file_creat K V W q c name _ (λ e. outside (ap (take 4) e ∙ in_usr)))
                λ opened named.
                  Keeps-if_bad opened (λ _. Keeps-pure _ tt)
                    λ g e.
                      Keeps-encrypt_into fuel f g room key _ other
                        (λ same. outside (ap (take 4) (same ∙ named g e) ∙ in_usr))

    -- Whatever fails and wherever the run stops, a file that is neither the input nor one whose path begins with /usr
    -- holds what it held.
    pub Keeps-processencryption :
        (fuel : ℕ) (name : Option (List ℕ)) (key : ℕ)
        → name ≢ some q
        → ¬ IsUsr q
        → Keeps (Untouched K V q c) Any (processencryption K C fuel name key)
    unfolding processencryption
    Keeps-processencryption fuel name key other outside =
        Keeps-bind (Keeps-deref_eq name) λ fname given.
          Keeps-bind (Keeps-file_open K V W q c fname _) λ opened named.
            Keeps-if_bad opened (λ _. Keeps-pure _ tt)
              λ f e. Keeps-bind (Keeps-kmalloc K V W q c _) λ replace _.
                Keeps-if_null replace (Keeps-pure _ tt) λ _.
                  Keeps-bind (Keeps-kmalloc K V W q c _) λ filename _.
                    Keeps-if_null filename (Keeps-pure _ tt) λ b.
                      Keeps-bind (Keeps-kmalloc K V W q c _) λ path _.
                        Keeps-if_null path (Keeps-pure _ tt) λ _.
                          Keeps-encrypt_named fuel f b key
                            (λ same. other (given ∙ ap some (sym (same ∙ named f e)))) outside
