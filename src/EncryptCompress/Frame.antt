-- ===== src/EncryptCompress/Frame.antt =====
-- `process_enc_comp` leaves alone every file but its input, temp.txt and those whose paths begin with /usr.
use asynchronous_file_system.Common.{ℕ, ◌≢◌, sym, ap, ◌∙◌, Option, some, List, take}
use asynchronous_file_system.Kernel.{Kernel, Buffer}
use asynchronous_file_system.Kernel.Volume.{Volume}
use asynchronous_file_system.Kernel.Contained.{IsContained, Untouched}
use asynchronous_file_system.Kernel.Triple.{
  Keeps, Any, Keeps-bind, Keeps-then, Keeps-pure, Keeps-ask, Keeps-fault, Keeps-deref,
  Keeps-deref_eq, Keeps-if_null, Keeps-if_bad,
}
use asynchronous_file_system.FileIo.Frame.{
  Keeps-kmalloc, Keeps-file_close, Keeps-file_open, Keeps-file_creat, Keeps-delete_input,
}
use asynchronous_file_system.Cipher.{BlockCipher}
use asynchronous_file_system.Cipher.Frame
use asynchronous_file_system.Compress.{Compressor}
use asynchronous_file_system.Compress.Frame as Zip
use asynchronous_file_system.Encrypt.Frame.{IsUsr, Keeps-name_in_page, Keeps-encrypt_into}
use asynchronous_file_system.EncryptCompress.{
  temp_name, encrypt_temp, compress_then_encrypt, process_enc_comp,
}

module _ (K : Kernel) (V : Volume K) (W : IsContained K V) (C : BlockCipher K.State)
    (Q : Frame.IsQuiet K V C) (Z : Compressor K.State) (R : Zip.IsQuiet K V Z) (q : List ℕ)
    (c : Option (List ℕ)) where
  abbrev I : K.State → Type 0
  I = Untouched K V q c

  Keeps-encrypt_temp :
      (fuel : ℕ) (trash : List ℕ) (room : Buffer) (key : ℕ)
      → q ≢ temp_name
      → q ≢ trash
      → Keeps I Any (encrypt_temp K C Z fuel trash room key)
  unfolding encrypt_temp
  Keeps-encrypt_temp fuel trash room key not_temp not_trash =
      Keeps-bind (Keeps-file_open K V W q c temp_name _) λ opened named.
        Keeps-if_bad opened (λ _. Keeps-pure _ tt)
          λ f e. Keeps-bind (Keeps-file_creat K V W q c trash _ not_trash) λ created called.
            Keeps-bind (Keeps-ask _) λ size _.
              Keeps-if_bad created (λ _. Keeps-fault)
                λ t d.
                  Keeps-encrypt_into K V W q c C Q fuel f t room key _
                    (λ same. not_temp (same ∙ named f e)) (λ same. not_trash (same ∙ called t d))

  Keeps-compress_then_encrypt :
      (fuel : ℕ) (name : Option (List ℕ)) (filename : Buffer) (key : ℕ)
      → name ≢ some q
      → q ≢ temp_name
      → ¬ IsUsr q
      → Keeps I Any (compress_then_encrypt K C Z fuel name filename key)
  unfolding compress_then_encrypt
  Keeps-compress_then_encrypt fuel name filename key other not_temp outside =
      Keeps-bind (Keeps-ask _) λ time _. Keeps-bind (Keeps-kmalloc K V W q c _) λ page _.
        Keeps-bind (Keeps-deref page) λ room _. Keeps-bind (Keeps-deref_eq name) λ fname given.
          Keeps-bind (Keeps-file_open K V W q c fname _) λ opened named.
            Keeps-if_bad opened (λ _. Keeps-pure _ tt)
              λ f e.
                Keeps-bind (Keeps-name_in_page K V W q c f filename room time _) λ trash in_usr.
                  Keeps-bind (Keeps-file_creat K V W q c temp_name _ not_temp) λ created called.
                    Keeps-if_bad created (λ _. Keeps-pure _ tt)
                      λ t d.
                        Keeps-bind
                          (Zip.Keeps-compress_file K V W Z R q c fuel f t
                            (λ same. not_temp (same ∙ called t d)))
                          λ zip_err _.
                            Keeps-bind
                              (Keeps-delete_input K V W q c f
                                (λ same. other (given ∙ ap some (sym (same ∙ named f e)))))
                              λ err _. Keeps-then (Keeps-file_close K V W q c t) (
                                Keeps-encrypt_temp fuel trash room key not_temp
                                  (λ same. outside (ap (take 4) same ∙ in_usr)))

  pub Keeps-process_enc_comp :
      (fuel : ℕ) (name : Option (List ℕ)) (key : ℕ)
      → name ≢ some q
      → q ≢ temp_name
      → ¬ IsUsr q
      → Keeps (Untouched K V q c) Any (process_enc_comp K C Z fuel name key)
  unfolding process_enc_comp
  Keeps-process_enc_comp fuel name key other not_temp outside =
      Keeps-bind (Keeps-kmalloc K V W q c _) λ replace _.
        Keeps-if_null replace (Keeps-pure _ tt) λ _.
          Keeps-bind (Keeps-kmalloc K V W q c _) λ filename _.
            Keeps-if_null filename (Keeps-pure _ tt) λ b.
              Keeps-bind (Keeps-kmalloc K V W q c _) λ path _.
                Keeps-if_null path (Keeps-pure _ tt)
                  λ _. Keeps-compress_then_encrypt fuel name b key other not_temp outside
