-- ===== src/EncryptCompress/Whole.antt =====
-- The whole of `process_enc_comp` on a healthy volume.
use asynchronous_file_system.Common.{
  ℕ, ◌+◌, ◌*◌, ◌^◌, ◌≤◌, ◌<◌, ◌≡◌, ◌≢◌, inl, inr, ◌∙◌, refl, sym, ap, ℤ, pos, ℤ, to_int_small,
  lt_or_le, fun_ext, none, some, Option, List, [], ◌++◌, codes, length, take, overlay, bytes_eq_iff,
  bytes_ne, update, update_self, update_ne, update-update, arith,
}
use asynchronous_file_system.Kernel.{Kernel, Buffer}
use asynchronous_file_system.Kernel.Constants.{
  page_size, path_max, o_rdonly, o_wronly_creat, mode_0644,
}
use asynchronous_file_system.Kernel.Monad.{valid, done, if_null, if_bad, steps}
use asynchronous_file_system.Kernel.Volume.{Volume, IsHealthy, or_empty}
use asynchronous_file_system.Kernel.Triple.{Keeps-done}
use asynchronous_file_system.FileIo.{file_open, file_close, delete_input}
use asynchronous_file_system.FileIo.Opens.{
  IsCalendar, file_open_lem, file_creat_lem, delete_input_lem,
}
use asynchronous_file_system.TrashName.Bounds.{take-stamp_root}
use asynchronous_file_system.Cipher.{BlockCipher}
use asynchronous_file_system.Encrypt.{name_in_page}
use asynchronous_file_system.Encrypt.Seal.{chunks}
use asynchronous_file_system.Encrypt.Laws.{IsCipher, IsKept}
use asynchronous_file_system.Encrypt.Result.{encrypted, encrypt_into_seals}
use asynchronous_file_system.Encrypt.Whole.{
  leftover, name_with, name_with-ne, FindsPath, ByPage, ByPage-map, name_in_page_lem,
  name_in_page_overruns, file_open_load,
}
use asynchronous_file_system.Compress.{Compressor, compress_file}
use asynchronous_file_system.Compress.Packer.{IsPacker, IsRoomy}
use asynchronous_file_system.Compress.Packed.{Packs, length-layout_any}
use asynchronous_file_system.Compress.Whole.{packed_file, compress_file_packs}
use asynchronous_file_system.EncryptCompress.{
  temp_name, encrypt_temp, compress_then_encrypt, process_enc_comp,
}
use asynchronous_file_system.EncryptCompress.KeyStays.{
  IsLeft, Keeps-compress_file, Keeps-delete_input,
}

-- A file that is made, used for another one, and removed leaves no trace.
update_scratch :
    (files : List ℕ → Option (List ℕ)) (scratch path name : List ℕ) (p e : Option (List ℕ))
    → files scratch ≡ none
    → scratch ≢ path
    → scratch ≢ name
    → path ≢ name
    → update (update (update (update files scratch p) path none) name e) scratch none
      ≡ update (update files name e) path none
update_scratch files scratch path name p e absent n m k =
    fun_ext λ q. ground (arith, bytes_eq_iff scratch q, bytes_eq_iff path q, bytes_eq_iff name q)

-- The same, where what is written goes over what was there.
over_scratch :
    (files files6 files7 : List ℕ → Option (List ℕ)) (scratch path name p e : List ℕ)
    → files6 ≡ update (update files scratch (some p)) path none
    → files7 ≡ update (update files6 name (some (overlay (or_empty (files6 name)) e))) scratch none
    → files scratch ≡ none
    → scratch ≢ path
    → scratch ≢ name
    → path ≢ name
    → files7 ≡ update (update files name (some (overlay (or_empty (files name)) e))) path none
over_scratch files files6 files7 scratch path name p e at_6 final absent n m k =
    let there : files6 name ≡ files name = rw at_6 (
      update_ne (update files scratch (some p)) path name none k
      ∙ update_ne files scratch name (some p) m) in
    final
    ∙ rw (there, at_6)
        (update_scratch files scratch path name (some p) (some (overlay (or_empty (files name)) e))
          absent n m k)

ne_of_found : {d : List ℕ} → ¬ (none ≡ some d)
ne_of_found e = absurd (cc)

module _ (K : Kernel) where
  -- The files after the compression and encryption of `path` at the time `t`.
  abbrev pub packed_and_locked :
      BlockCipher K.State
      → (List ℕ → List ℕ → List ℕ → List ℕ)
      → (List ℕ → Option (List ℕ))
      → List ℕ
      → List ℕ
      → List ℕ
      → List ℕ
      → ℕ
      → List ℕ
      → Option (List ℕ)
  packed_and_locked C enc files path packed bytes rest t =
      let name = name_with K rest (codes ".enc" ++ codes ".cmp") path t in
      update
        (update files name (some (overlay (or_empty (files name)) (encrypted C enc bytes packed))))
        path none

module _ (K : Kernel) (V : Volume K) (C : BlockCipher K.State) (key : ℕ) (H : IsHealthy K V)
    (L : IsKept K V C key) (enc : List ℕ → List ℕ → List ℕ → List ℕ) (E : IsCipher K V C enc)
    (T : IsCalendar K) (Z : Compressor K.State) (X : IsLeft K Z key) (comp : List ℕ → List ℕ)
    (Q : IsPacker K V Z comp) (R : IsRoomy K) where
  open V use {contents, path_of}

  -- The second half: what temp.txt holds goes over what the trash file holds.
  encrypt_temp_lem :
      (fuel : ℕ) (trash : List ℕ) (room : Buffer) (packed bytes : List ℕ) (s : K.State)
      → temp_name ≢ trash
      → contents s temp_name ≡ some packed
      → K.load key s ≡ some bytes
      → chunks (length packed) * page_size < 2 ^ 31
      → chunks (length packed) < fuel
      → (s' : K.State) × (encrypt_temp K C Z fuel trash room key s ≡ done (pos 0) s')
        × (contents s'
            ≡ update
                (update
                  (contents s)
                  trash
                  (some (overlay (or_empty (contents s trash)) (encrypted C enc bytes packed))))
                temp_name
                none)
  unfolding encrypt_temp if_bad steps
  encrypt_temp_lem fuel trash room packed bytes s apart source there fits enough =
      let (f, s1, opened, named, kept) = file_open_lem K V H temp_name 0 s packed source in
      let (g, s2, made, named_g, created) = file_creat_lem K V H trash mode_0644 s1 in
      let old = or_empty (contents s trash) in
      let at_2 : contents s2 ≡ update (contents s) trash (some old) = created ∙ rw kept refl in
      let held : contents s2 temp_name ≡ some packed =
        rw at_2 (update_ne (contents s) trash temp_name _ (λ e. apart (sym e)) ∙ source) in
      let (s3, runs, final) =
        encrypt_into_seals K V C key H L enc E fuel f g room s2 packed old bytes
          (rw (named, named_g) apart) (rw named held)
          (rw (named_g, at_2) (update_self (contents s) trash _))
          (file_open_load K V C key H L enc E T trash o_wronly_creat mode_0644 s1 s2 (valid g) made
            ∙ file_open_load K V C key H L enc E T temp_name o_rdonly 0 s s1 (valid f) opened
            ∙ there)
          fits enough in
      (
        s3,
        rw
            (
              opened,
              made,
              H.size f s2 packed (rw named held),
              to_int_small (length packed) (omega arith),
            )
            runs,
        final
            ∙ rw
                (
                  named,
                  named_g,
                  at_2,
                  update-update (contents s) trash (some old)
                      (some (overlay old (encrypted C enc bytes packed))),
                )
                refl,
      )

  -- A packed file has few chunks.
  packed_small :
      (d tei : List ℕ)
      → length tei ≡ 4
      → length d < 2 ^ 31
      → Packs comp d
      → (chunks (length (packed_file comp d tei)) ≤ chunks (length d))
        × (chunks (length (packed_file comp d tei)) * page_size < 2 ^ 31)
  packed_small d tei four small packs = elim (lt_or_le 0 (length d)) [
    | inl more ↦
        let size =
          length-layout_any comp d (chunks (length d)) 0 [] tei (omega arith) four packs
            (omega arith) in
        (omega (arith, size), omega (arith, size))
    | inr empty ↦ let no_chunk : chunks (length d) ≡ 0 = omega arith in rw no_chunk (omega arith)
  ]

  -- The calls one after the other, as long as none of them fails.
  calls_run :
      (fuel : ℕ) (filename room : Buffer) (path name : List ℕ) (f g : K.File) (r : ℤ)
      (s s1 s2 s3 s4 s5 : K.State)
      → K.kmalloc path_max s ≡ (some room, s1)
      → file_open K path o_rdonly 0 s1 ≡ done (valid f) s2
      → name_in_page K f filename room (K.do_gettimeofday s) (codes ".enc" ++ codes ".cmp") s2
        ≡ done name s2
      → file_open K temp_name o_wronly_creat mode_0644 s2 ≡ done (valid g) s3
      → compress_file K Z fuel f g s3 ≡ done r s4
      → delete_input K f s4 ≡ done (pos 0) s5
      → compress_then_encrypt K C Z fuel (some path) filename key s
        ≡ encrypt_temp K C Z fuel name room key (K.filp_close g s5)
  unfolding compress_then_encrypt if_bad file_close steps
  calls_run fuel filename room path name f g r s s1 s2 s3 s4 s5 got opened named made zipped
        deleted =
      rw (got, opened, named, made, zipped, deleted) refl

  compress_then_encrypt_lem :
      (fuel : ℕ) (filename : Buffer) (path d bytes : List ℕ) (s : K.State)
      → contents s path ≡ some d
      → contents s temp_name ≡ none
      → K.load key s ≡ some bytes
      → FindsPath K V path
      → length d < 2 ^ 31
      → Packs comp d
      → chunks (length d) < fuel
      → ByPage K V
          (length path + 40)
          (compress_then_encrypt K C Z fuel (some path) filename key)
          s
          (λ rest t.
            (s' : K.State) × (tei : List ℕ) × (compress_then_encrypt K C Z fuel
                (some path)
                filename
                key
                s
              ≡ done (pos 0) s')
            × (contents s'
                ≡ packed_and_locked K C enc (contents s) path (packed_file comp d tei) bytes rest t)
            × (length tei ≡ 4))
  unfolding compress_then_encrypt if_bad steps
  compress_then_encrypt_lem fuel filename path d bytes s source scratch there finds small packs
        enough =
      let time = K.do_gettimeofday s in
      let suffix = codes ".enc" ++ codes ".cmp" in
      let (room, got) = H.kmalloc_some path_max s in
      let rest = leftover K room in
      let name = name_with K rest suffix path time in
      let apart : path ≢ name = name_with-ne K T rest suffix path time (T.early s) in
      let temp_apart : temp_name ≢ name = λ e.
        bytes_ne (take 4 temp_name) (codes "/usr") refl
          (ap (take 4) e ∙ take-stamp_root rest _ _ _) in
      let own : temp_name ≢ path = λ e. ne_of_found (sym scratch ∙ ap (contents s) e ∙ source) in
      let s1 = (K.kmalloc path_max s).1 in
      let same : contents s1 ≡ contents s = H.kmalloc_keeps path_max s in
      let (f, s2, opened, named, kept) = file_open_lem K V H path 0 s1 d (rw same source) in
      let (g, s3, made, named_g, created) = file_creat_lem K V H temp_name mode_0644 s2 in
      let at_3 : contents s3 ≡ update (contents s) temp_name (some []) =
        created
        ∙ rw (kept, same)
            (ap (λ (o : Option (List ℕ)). update (contents s) temp_name (some (or_empty o)))
              scratch) in
      let tei = K.garbage 4 s3 in
      let packed = packed_file comp d tei in
      let (s4, zipped, effect) =
        compress_file_packs K V H Z comp Q R fuel f g d s3 (rw (named, named_g) (λ e. own (sym e)))
          (rw (named, at_3) (update_ne (contents s) temp_name path _ own ∙ source))
          (rw (named_g, at_3) (update_self (contents s) temp_name _)) small packs enough in
      let at_4 : contents s4 ≡ update (contents s) temp_name (some packed) =
        effect
        ∙ rw (named_g, at_3) (update-update (contents s) temp_name (some []) (some packed)) in
      let (s5, deleted, left) =
        delete_input_lem K V H f s4 d
          (rw (named, at_4) (update_ne (contents s) temp_name path _ own ∙ source)) in
      let s6 = K.filp_close g s5 in
      let at_6 : contents s6 ≡ update (update (contents s) temp_name (some packed)) path none =
        H.close_keeps g s5 ∙ left ∙ rw (named, at_4) refl in
      let key_3 : K.load key s3 ≡ some bytes =
        file_open_load K V C key H L enc E T temp_name o_wronly_creat mode_0644 s2 s3 (valid g) made
        ∙ file_open_load K V C key H L enc E T path o_rdonly 0 s1 s2 (valid f) opened
        ∙ L.kmalloc_load path_max s
        ∙ there in
      let key_4 = Keeps-done (Keeps-compress_file K V C key L Z X bytes fuel f g) zipped key_3 in
      let key_5 = Keeps-done (Keeps-delete_input K V C key L Z X bytes f) deleted key_4 in
      let few = packed_small d tei (R.length-garbage 4 s3) small packs in
      let (s7, runs, final) =
        encrypt_temp_lem fuel name room packed bytes s6 temp_apart
          (rw at_6 (
            update_ne (update (contents s) temp_name (some packed)) path temp_name none
              (λ e. own (sym e))
            ∙ update_self (contents s) temp_name (some packed)))
          (X.close_load g s5 ∙ key_5) few.1 (omega (arith, few.0)) in
      (
        room,
        s,
        got,
        elim (lt_or_le path_max (length path + 40 + length rest)) [
          | inl long ↦
              let stops =
                name_in_page_overruns K V T f filename room time suffix path s2
                  (finds.found f filename s2 named) (T.early s) (omega arith) in
              inr (long, s2, rw (got, opened, stops) refl, kept ∙ same)
          | inr short ↦
              let names =
                name_in_page_lem K V T f filename room time suffix path s2
                  (finds.found f filename s2 named) (T.early s) (omega arith) in
              inl (
                short,
                (
                  s7,
                  tei,
                  calls_run fuel filename room path name f g _ s s1 s2 s3 s4 s5
                        (ap (λ o. (o, s1)) got) opened names made zipped deleted
                      ∙ runs,
                  over_scratch (contents s) (contents s6) (contents s7) temp_name path name packed
                      (encrypted C enc bytes packed) at_6 final scratch own temp_apart apart,
                  R.length-garbage 4 s3,
                ),
              )
        ],
      )

  -- On a healthy volume without a temp.txt, while the clock shows a date from 1900 to 9999 whose
  -- minutes fit an `int` and `strreplace` keeps the length of a string, with a cipher and a
  -- compressor that fail only where the output does not fit, where an address of four bytes,
  -- taken for the room for that output, is at least a page, and where nothing but the `kfree` of
  -- its own address touches the key, `kmalloc` hands out other addresses and as many bytes as it
  -- is asked for, and the calls of the cipher touch no file, for a live key and a file of less
  -- than 2 ^ 31 bytes whose path `d_path` finds, if each chunk packs into at least eight bytes
  -- and at most a page, and with fuel for one round a chunk and one more, for some page that
  -- `kmalloc` hands out and the text behind its fourth byte: if the path is at most 4056 bytes
  -- less that text, `process_enc_comp` returns 0, the encryption of the packed file, the one that
  -- the compression alone would leave, is written over what the file held whose name is "/usr",
  -- that text, "/trashbin/", the stamp of the clock and the path, the input's name is gone,
  -- temp.txt is gone, and no other file has changed. Else it stops at a write past the page, and
  -- no file has changed.
  pub process_enc_comp_seals :
      (fuel : ℕ) (path d bytes : List ℕ) (s : K.State)
      → contents s path ≡ some d
      → contents s temp_name ≡ none
      → K.load key s ≡ some bytes
      → FindsPath K V path
      → length d < 2 ^ 31
      → Packs comp d
      → chunks (length d) < fuel
      → ByPage K V (length path + 40) (process_enc_comp K C Z fuel (some path) key) s (λ rest t.
        (s' : K.State) × (tei : List ℕ) × (process_enc_comp K C Z fuel (some path) key s
          ≡ done (pos 0) s')
        × (contents s'
            ≡ packed_and_locked K C enc (contents s) path (packed_file comp d tei) bytes rest t)
        × (length tei ≡ 4))
  unfolding process_enc_comp if_null steps
  process_enc_comp_seals fuel path d bytes s source scratch there finds small packs enough =
      let (b1, got1) = H.kmalloc_some path_max s in
      let s1 = (K.kmalloc path_max s).1 in
      let (b2, got2) = H.kmalloc_some path_max s1 in
      let s2 = (K.kmalloc path_max s1).1 in
      let (b3, got3) = H.kmalloc_some path_max s2 in
      let s3 = (K.kmalloc path_max s2).1 in
      let files : contents s3 ≡ contents s =
        H.kmalloc_keeps path_max s2 ∙ H.kmalloc_keeps path_max s1 ∙ H.kmalloc_keeps path_max s in
      let held : K.load key s3 ≡ some bytes =
        L.kmalloc_load path_max s2
        ∙ L.kmalloc_load path_max s1
        ∙ L.kmalloc_load path_max s
        ∙ there in
      let goes_on : process_enc_comp K C Z fuel (some path) key s
          ≡ compress_then_encrypt K C Z fuel (some path) b2 key s3 =
        rw (got1, got2, got3) refl in
      ByPage-map K V (length path + 40) (process_enc_comp K C Z fuel (some path) key)
        (compress_then_encrypt K C Z fuel (some path) b2 key) s s3
        (λ rest t.
          (s' : K.State) × (tei : List ℕ) × (compress_then_encrypt K C Z fuel (some path) b2 key s3
            ≡ done (pos 0) s')
          × (contents s'
              ≡ packed_and_locked K C enc (contents s3) path (packed_file comp d tei) bytes rest t)
          × (length tei ≡ 4))
        (λ rest t.
          (s' : K.State) × (tei : List ℕ) × (process_enc_comp K C Z fuel (some path) key s
            ≡ done (pos 0) s')
          × (contents s'
              ≡ packed_and_locked K C enc (contents s) path (packed_file comp d tei) bytes rest t)
          × (length tei ≡ 4))
        goes_on files
        (λ rest now (s', tei, runs, final, four).
          (s', tei, goes_on ∙ runs, final ∙ rw files refl, four))
        (compress_then_encrypt_lem fuel b2 path d bytes s3 (rw files source) (rw files scratch) held
          finds small packs enough)
