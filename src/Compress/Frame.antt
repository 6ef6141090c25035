-- ===== src/Compress/Frame.antt =====
-- `processcompress` leaves alone every file but its input and those whose paths begin with /usr.
use asynchronous_file_system.Common.{
  ℕ, zero, suc, ◌≡◌, ◌≢◌, sym, ap, ◌∙◌, ℤ, Option, some, List, take,
}
use asynchronous_file_system.Kernel.{Kernel, Buffer}
use asynchronous_file_system.Kernel.Volume.{Volume}
use asynchronous_file_system.Kernel.Contained.{IsContained, Untouched}
use asynchronous_file_system.Kernel.Triple.{
  Keeps, Any, Keeps-bind, Keeps-then, Keeps-pure, Keeps-call, Keeps-ask, Keeps-fault,
  Keeps-out_of_fuel, Keeps-deref, Keeps-deref_eq, Keeps-fits, Keeps-choose, Keeps-if_null,
  Keeps-if_bad,
}
use asynchronous_file_system.FileIo.Frame.{
  by_equation, Keeps-set_fs, Keeps-kmalloc, Keeps-kfree, Keeps-file_close, Keeps-file_open,
  Keeps-file_creat, Keeps-delete_input,
}
use asynchronous_file_system.Encrypt.Frame.{IsUsr, Keeps-read_chunk, Keeps-name_in_page}
use asynchronous_file_system.Compress.{
  Compressor, compress_buffer, write_chunk, compress_loop, compress_file, compress_into,
  compress_named, processcompress,
}

module _ (K : Kernel) (V : Volume K) (Z : Compressor K.State) where
  open V use {contents}

  pub record IsQuiet : Type 0 where
    pub alloc_keeps : (s : K.State) → contents (Z.alloc_comp s).1 ≡ contents s
    pub compress_keeps :
        (t : Z.Tfm) (input : List ℕ) (n : ℕ) (s : K.State)
        → contents (Z.comp_compress t input n s).1 ≡ contents s

module _ (K : Kernel) (V : Volume K) (W : IsContained K V) (Z : Compressor K.State)
    (Q : IsQuiet K V Z) (q : List ℕ) (c : Option (List ℕ)) where
  abbrev I : K.State → Type 0
  I = Untouched K V q c

  Keeps-compress_buffer :
      (input : List ℕ) (n : ℤ) (out : List ℕ) (m : ℤ)
      → Keeps I Any (compress_buffer Z input n out m)
  unfolding compress_buffer
  Keeps-compress_buffer input n out m =
      Keeps-bind (Keeps-call _ λ s i. by_equation K V W q c (Q.alloc_keeps s) i) λ tfm _.
        Keeps-if_bad tfm (λ _. Keeps-fault)
          λ t _. Keeps-then (Keeps-fits _) (
            Keeps-bind (Keeps-call _ λ s i. by_equation K V W q c (Q.compress_keeps t _ _ s) i)
              λ (err, bytes, written) _.
                Keeps-then (Keeps-fits _) (Keeps-choose _ (Keeps-pure _ tt) (Keeps-pure _ tt)))

  Keeps-write_chunk :
      (t : K.File) (tei buff4 : List ℕ) (w : ℤ)
      → q ≢ V.path_of t
      → Keeps I Any (write_chunk K Z t tei buff4 w)
  unfolding write_chunk
  Keeps-write_chunk t tei buff4 w other = Keeps-bind (Keeps-ask _) λ oldfs _.
      Keeps-then (Keeps-set_fs K V W q c _) (
        Keeps-bind (Keeps-call _ λ s i. W.write_other t _ _ s q other ∙ i) λ w1 _.
          Keeps-bind (Keeps-call _ λ s i. W.write_other t _ _ s q other ∙ i)
            λ w2 _. Keeps-then (Keeps-set_fs K V W q c _) (Keeps-pure _ tt))

  Keeps-compress_loop :
      (fuel : ℕ) (f t : K.File) (out_len : ℤ) (tei : List ℕ) (err fsize r w : ℤ)
      → q ≢ V.path_of t
      → Keeps I Any (compress_loop K Z fuel f t out_len tei err fsize r w)
  unfolding compress_loop
  Keeps-compress_loop zero f t out_len tei err fsize r w other = Keeps-out_of_fuel
  Keeps-compress_loop (suc fuel) f t out_len tei err fsize r w other =
      Keeps-choose _
        (Keeps-bind (Keeps-kmalloc K V W q c _) λ page3 _.
          Keeps-bind (Keeps-kmalloc K V W q c _) λ page4 _.
            Keeps-bind (Keeps-deref page3) λ buff3 _. Keeps-bind (Keeps-deref page4) λ buff4 _.
              Keeps-bind (Keeps-read_chunk K V W q c f buff3.bytes _ r) λ (n, text) _.
                Keeps-bind (Keeps-compress_buffer text n buff4.bytes out_len) λ z _.
                  Keeps-choose _
                    (Keeps-then (Keeps-kfree K V W q c _)
                      (Keeps-then (Keeps-kfree K V W q c _) (Keeps-pure _ tt)))
                    (Keeps-bind (Keeps-write_chunk t _ z.out_buf w other) λ m _.
                      Keeps-then (Keeps-kfree K V W q c _) (
                        Keeps-then (Keeps-kfree K V W q c _)
                          (Keeps-compress_loop fuel f t out_len _ _ _ _ _ other))))
        (Keeps-pure _ tt)

  pub Keeps-compress_file :
      (fuel : ℕ) (f t : K.File)
      → q ≢ V.path_of t
      → Keeps (Untouched K V q c) Any (compress_file K Z fuel f t)
  unfolding compress_file
  Keeps-compress_file fuel f t other = Keeps-bind (Keeps-ask _) λ tei _.
      Keeps-bind (Keeps-kmalloc K V W q c _)
        λ out _. Keeps-bind (Keeps-ask _) λ size _. Keeps-compress_loop fuel f t _ tei _ _ _ _ other

  Keeps-compress_into :
      (fuel : ℕ) (f t : K.File) (room : Buffer)
      → q ≢ V.path_of f
      → q ≢ V.path_of t
      → Keeps I Any (compress_into K Z fuel f t room)
  unfolding compress_into
  Keeps-compress_into fuel f t room not_f not_t =
      Keeps-bind (Keeps-compress_file fuel f t not_t) λ zip_err _.
        Keeps-bind (Keeps-delete_input K V W q c f not_f) λ err _.
          Keeps-then (Keeps-file_close K V W q c t)
            (Keeps-then (Keeps-kfree K V W q c _) (Keeps-pure _ tt))

  Keeps-compress_named :
      (fuel : ℕ) (name : Option (List ℕ)) (filename : Buffer)
      → name ≢ some q
      → ¬ IsUsr q
      → Keeps I Any (compress_named K Z fuel name filename)
  unfolding compress_named
  Keeps-compress_named fuel name filename other outside = Keeps-bind (Keeps-ask _) λ time _.
      Keeps-bind (Keeps-kmalloc K V W q c _) λ page _. Keeps-bind (Keeps-deref page) λ room _.
        Keeps-bind (Keeps-deref_eq name) λ fname given.
          Keeps-bind (Keeps-file_open K V W q c fname _) λ opened named.
            Keeps-if_bad opened (λ _. Keeps-pure _ tt)
              λ f e.
                Keeps-bind (Keeps-name_in_page K V W q c f filename room time _) λ trash in_usr.
                  Keeps-bind
                    (Keeps-file_creat K V W q c trash _ (λ d. outside (ap (take 4) d ∙ in_usr)))
                    λ created called.
                      Keeps-if_bad created (λ _. Keeps-pure _ tt)
                        λ t d.
                          Keeps-compress_into fuel f t room
                            (λ same. other (given ∙ ap some (sym (same ∙ named f e))))
                            (λ same. outside (ap (take 4) (same ∙ called t d) ∙ in_usr))

  -- Whatever fails and wherever the run stops, a file that is neither the input nor one whose path begins with /usr
  -- holds what it held.
  pub Keeps-processcompress :
      (fuel : ℕ) (name : Option (List ℕ))
      → name ≢ some q
      → ¬ IsUsr q
      → Keeps (Untouched K V q c) Any (processcompress K Z fuel name)
  unfolding processcompress
  Keeps-processcompress fuel name other outside =
      Keeps-bind (Keeps-kmalloc K V W q c _) λ replace _.
        Keeps-if_null replace (Keeps-pure _ tt) λ _.
          Keeps-bind (Keeps-kmalloc K V W q c _) λ filename _.
            Keeps-if_null filename (Keeps-pure _ tt) λ b.
              Keeps-bind (Keeps-kmalloc K V W q c _) λ path _.
                Keeps-if_null path (Keeps-pure _ tt)
                  λ _. Keeps-compress_named fuel name b other outside
