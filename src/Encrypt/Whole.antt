-- ===== src/Encrypt/Whole.antt =====
-- The whole of `processencryption` on a healthy volume.
use asynchronous_file_system.Common.{
  ℕ, ◌+◌, ◌*◌, ◌^◌, ◌≤◌, ◌<◌, ◌≡◌, ◌≢◌, ◌∙◌, refl, sym, ap, ℤ, pos, to_int_small, leb, le→leb,
  gt→leb, true, false, lt_or_le, ◌⊎◌, inl, inr, Option, none, some, List, ◌++◌, codes, length,
  length-append, drop, overlay, update, update_self, update_ne, update-update, c_string, arith,
}
use asynchronous_file_system.Kernel.{Kernel, Buffer}
use asynchronous_file_system.Kernel.Constants.{
  page_size, path_max, o_rdonly, o_wronly_creat, mode_0644,
}
use asynchronous_file_system.Kernel.Monad.{
  Pointer, valid, M, Outcome, done, oops, overrun, unfinished, if_null, if_bad, steps,
}
use asynchronous_file_system.Kernel.Volume.{Volume, IsHealthy, or_empty}
use asynchronous_file_system.FileIo.{file_open}
use asynchronous_file_system.FileIo.Opens.{IsCalendar, file_open_lem, file_creat_lem}
use asynchronous_file_system.TrashName.{stamp}
use asynchronous_file_system.TrashName.Bounds.{length-stamp}
use asynchronous_file_system.Cipher.{BlockCipher}
use asynchronous_file_system.Encrypt.{name_in_page, encrypt_named, processencryption}
use asynchronous_file_system.Encrypt.Seal.{chunks}
use asynchronous_file_system.Encrypt.Laws.{IsCipher, IsKept}
use asynchronous_file_system.Encrypt.Result.{encrypted, encrypt_into_seals}

-- The state in which a call ended, if it returned.
abbrev state_of : {S A : Type 0} → S → Outcome S A → S
state_of s (done a s') = s'
state_of s (oops s') = s
state_of s (overrun s') = s
state_of s unfinished = s

module _ (K : Kernel) where
  -- What `strcat` finds behind "/usr" in a page that is not cleared.
  abbrev pub leftover : Buffer → List ℕ
  leftover room = c_string (drop 4 room.bytes)

  -- The name that a path gets at a time, with a suffix, in a page with a leftover.
  abbrev pub name_with : List ℕ → List ℕ → List ℕ → ℕ → List ℕ
  name_with rest suffix path t =
      stamp (codes "/usr" ++ rest) (K.time_to_tm t) t ++ (K.strreplace path b'/' b'[' ++ suffix)

  -- The files after the encryption of `path` at the time `t`.
  abbrev pub locked_away :
      BlockCipher K.State
      → (List ℕ → List ℕ → List ℕ → List ℕ)
      → (List ℕ → Option (List ℕ))
      → List ℕ
      → List ℕ
      → List ℕ
      → List ℕ
      → ℕ
      → List ℕ
      → Option (List ℕ)
  locked_away C enc files path bytes d rest t =
      let name = name_with rest (codes ".enc") path t in
      update (update files name (some (overlay (or_empty (files name)) (encrypted C enc bytes d))))
        path none

module _ (K : Kernel) (V : Volume K) where
  open V use {contents, path_of}

  -- `d_path` finds the name of an open file.
  pub record FindsPath (path : List ℕ) : Type 0 where
    pub found :
        (f : K.File) (b : Buffer) (s : K.State)
        → path_of f ≡ path
        → K.d_path f (some b) path_max s ≡ some path

  -- By a page that `kmalloc` hands out: the name, which takes `size` bytes and the
  -- leftover of that page, fits, and P holds of the leftover and the time; or it does not, and the run
  -- stops behind the end of the page with every file as it was.
  abbrev pub ByPage : ℕ → M K.State ℤ → K.State → (List ℕ → ℕ → Type 0) → Type 0
  ByPage size m s P =
      (room : Buffer) × (now : K.State) × ((K.kmalloc path_max now).0 ≡ some room)
      × (((size + length (leftover K room) ≤ path_max)
            × P (leftover K room) (K.do_gettimeofday now))
          ⊎ ((path_max < size + length (leftover K room))
              × (s' : K.State) × (m s ≡ overrun s')
              × (contents s' ≡ contents s)))

  -- A run that goes on as another one, from a state with the same files.
  pub ByPage-map :
      (size : ℕ) (m m' : M K.State ℤ) (s s1 : K.State) (P Q : List ℕ → ℕ → Type 0)
      → m s ≡ m' s1
      → contents s1 ≡ contents s
      → ((rest : List ℕ) (now : K.State)
          → P rest (K.do_gettimeofday now)
          → Q rest (K.do_gettimeofday now))
      → ByPage size m' s1 P
      → ByPage size m s Q
  ByPage-map size m m' s s1 P Q runs same f (room, now, got, inl (short, p)) =
      (room, now, got, inl (short, f _ _ p))
  ByPage-map size m m' s s1 P Q runs same f (room, now, got, inr (long, s', stops, kept)) =
      (room, now, got, inr (long, s', runs ∙ stops, kept ∙ same))

module _ (K : Kernel) (T : IsCalendar K) where
  pub length-name_with :
      (rest suffix path : List ℕ) (t : ℕ)
      → t < 60 * 2 ^ 31
      → length (name_with K rest suffix path t) ≡ length path + length suffix + 31 + length rest
  length-name_with rest suffix path t early = omega (
    arith,
    length-append (stamp (codes "/usr" ++ rest) (K.time_to_tm t) t)
        (K.strreplace path b'/' b'[' ++ suffix),
    length-append (K.strreplace path b'/' b'[') suffix,
    length-append (codes "/usr") rest,
    length-stamp (codes "/usr" ++ rest) (K.time_to_tm t) t (T.date t) early,
    T.length-strreplace path b'/' b'[',
  )

  -- The name is longer than the path.
  pub name_with-ne :
      (rest suffix path : List ℕ) (t : ℕ) → t < 60 * 2 ^ 31 → path ≢ name_with K rest suffix path t
  name_with-ne rest suffix path t early e =
      let same : length path ≡ length (name_with K rest suffix path t) = ap length e in
      omega (arith, same, length-name_with rest suffix path t early)

module _ (K : Kernel) (V : Volume K) (T : IsCalendar K) (f : K.File) (filename room : Buffer)
    (t : ℕ) (suffix path : List ℕ) (s : K.State)
    (found : K.d_path f (some filename) path_max s ≡ some path) (early : t < 60 * 2 ^ 31) where
  abbrev name : List ℕ
  name = name_with K (leftover K room) suffix path t

  pub name_in_page_lem :
      length path + length suffix + 32 + length (leftover K room) ≤ path_max
      → name_in_page K f filename room t suffix s ≡ done name s
  unfolding name_in_page steps
  name_in_page_lem short =
      let enough : leb (length name + 1) path_max ≡ true =
        le→leb _ _ (omega (arith, length-name_with K T (leftover K room) suffix path t early)) in
      rw (found, enough) refl

  pub name_in_page_overruns :
      path_max < length path + length suffix + 32 + length (leftover K room)
      → name_in_page K f filename room t suffix s ≡ overrun s
  unfolding name_in_page steps
  name_in_page_overruns long =
      let over : leb (length name + 1) path_max ≡ false =
        gt→leb _ _ (omega (arith, length-name_with K T (leftover K room) suffix path t early)) in
      rw (found, over) refl

module _ (K : Kernel) (V : Volume K) (C : BlockCipher K.State) (key : ℕ) (H : IsHealthy K V)
    (L : IsKept K V C key) (enc : List ℕ → List ℕ → List ℕ → List ℕ) (E : IsCipher K V C enc)
    (T : IsCalendar K) where
  open V use {contents, path_of}

  pub file_open_load :
      (p : List ℕ) (flags mode : ℕ) (s s' : K.State) (r : Pointer K.File)
      → file_open K p flags mode s ≡ done r s'
      → K.load key s' ≡ K.load key s
  unfolding file_open steps
  file_open_load p flags mode s s' r e =
      ap (λ (o : Outcome K.State (Pointer K.File)). K.load key (state_of s o)) (sym e)
      ∙ L.open_load p flags mode (K.set_fs K.kernel_ds s)
      ∙ L.set_fs_load K.kernel_ds s

  encrypt_named_lem :
      (fuel : ℕ) (f : K.File) (filename : Buffer) (path d bytes : List ℕ) (s : K.State)
      → path_of f ≡ path
      → contents s path ≡ some d
      → K.load key s ≡ some bytes
      → FindsPath K V path
      → chunks (length d) * page_size < 2 ^ 31
      → chunks (length d) < fuel
      → ByPage K V (length path + 36) (encrypt_named K C fuel f filename key) s (λ rest t.
        (s' : K.State) × (encrypt_named K C fuel f filename key s ≡ done (pos 0) s')
        × (contents s' ≡ locked_away K C enc (contents s) path bytes d rest t))
  unfolding encrypt_named if_bad steps
  encrypt_named_lem fuel f filename path d bytes s named source there finds fits enough =
      let t = K.do_gettimeofday s in
      let (room, got) = H.kmalloc_some path_max s in
      let name = name_with K (leftover K room) (codes ".enc") path t in
      let apart : path ≢ name = name_with-ne K T _ (codes ".enc") path t (T.early s) in
      let s1 = (K.kmalloc path_max s).1 in
      let same : contents s1 ≡ contents s = H.kmalloc_keeps path_max s in
      let found = finds.found f filename s1 named in
      let (g, s2, opened, named_g, made) = file_creat_lem K V H name mode_0644 s1 in
      let old = or_empty (contents s name) in
      let at_2 : contents s2 ≡ update (contents s) name (some old) = made ∙ rw same refl in
      let (s3, runs, final) =
        encrypt_into_seals K V C key H L enc E fuel f g room s2 d old bytes
          (rw (named, named_g) apart)
          (rw (named, at_2) (update_ne (contents s) name path _ (λ q. apart (sym q)) ∙ source))
          (rw (named_g, at_2) (update_self (contents s) name _))
          (file_open_load name o_wronly_creat mode_0644 s1 s2 (valid g) opened
            ∙ L.kmalloc_load path_max s
            ∙ there)
          fits enough in
      let there_is : contents s1 (path_of f) ≡ some d = rw (named, same) source in
      (
        room,
        s,
        got,
        elim (lt_or_le path_max (length path + 36 + length (leftover K room))) [
          | inl long ↦
              let stops =
                name_in_page_overruns K V T f filename room t (codes ".enc") path s1 found
                  (T.early s) (omega arith) in
              inr (long, s1, rw (got, stops) refl, same)
          | inr short ↦
              let names =
                name_in_page_lem K V T f filename room t (codes ".enc") path s1 found (T.early s)
                  (omega arith) in
              inl (
                short,
                (
                  s3,
                  rw
                      (
                        got,
                        names,
                        H.size f s1 d there_is,
                        to_int_small (length d) (omega arith),
                        opened,
                      )
                      runs,
                  final
                      ∙ rw
                          (
                            named,
                            named_g,
                            at_2,
                            update-update (contents s) name (some old)
                                (some (overlay old (encrypted C enc bytes d))),
                          )
                          refl,
                ),
              )
        ],
      )

  -- On a healthy volume, while the clock shows a date from 1900 to 9999 whose minutes fit an
  -- `int` and `strreplace` keeps the length of a string, with a cipher that does not fail, and
  -- where nothing but the `kfree` of its own address touches the key, `kmalloc` hands out other
  -- addresses and as many bytes as it is asked for, and the calls of the cipher touch no file,
  -- for a live key, a file whose path `d_path` finds and whose encrypted chunks are less than 2 ^
  -- 31 bytes, and with fuel for one round a chunk and one more, for some page that `kmalloc`
  -- hands out and the text behind its fourth byte: if the path is at most 4060 bytes less that
  -- text, `processencryption` returns 0, the chunks of the file, each padded and encrypted, are
  -- written over what the file held whose name is "/usr", that text, "/trashbin/", the stamp of
  -- the clock and the path, the input's name is gone, and no other file has changed. Else it
  -- stops at a write past the page, and no file has changed.
  pub processencryption_seals :
      (fuel : ℕ) (path d bytes : List ℕ) (s : K.State)
      → contents s path ≡ some d
      → K.load key s ≡ some bytes
      → FindsPath K V path
      → chunks (length d) * page_size < 2 ^ 31
      → chunks (length d) < fuel
      → ByPage K V (length path + 36) (processencryption K C fuel (some path) key) s (λ rest t.
        (s' : K.State) × (processencryption K C fuel (some path) key s ≡ done (pos 0) s')
        × (contents s' ≡ locked_away K C enc (contents s) path bytes d rest t))
  unfolding processencryption if_null if_bad steps
  processencryption_seals fuel path d bytes s source there finds fits enough =
      let (f, s1, opened, named, kept) = file_open_lem K V H path 0 s d source in
      let (b1, got1) = H.kmalloc_some path_max s1 in
      let s2 = (K.kmalloc path_max s1).1 in
      let (b2, got2) = H.kmalloc_some path_max s2 in
      let s3 = (K.kmalloc path_max s2).1 in
      let (b3, got3) = H.kmalloc_some path_max s3 in
      let s4 = (K.kmalloc path_max s3).1 in
      let files : contents s4 ≡ contents s =
        H.kmalloc_keeps path_max s3
        ∙ H.kmalloc_keeps path_max s2
        ∙ H.kmalloc_keeps path_max s1
        ∙ kept in
      let held : K.load key s4 ≡ some bytes =
        L.kmalloc_load path_max s3
        ∙ L.kmalloc_load path_max s2
        ∙ L.kmalloc_load path_max s1
        ∙ file_open_load path o_rdonly 0 s s1 (valid f) opened
        ∙ there in
      let goes_on : processencryption K C fuel (some path) key s
          ≡ encrypt_named K C fuel f b2 key s4 =
        rw (opened, got1, got2, got3) refl in
      ByPage-map K V (length path + 36) (processencryption K C fuel (some path) key)
        (encrypt_named K C fuel f b2 key) s s4
        (λ rest t.
          (s' : K.State) × (encrypt_named K C fuel f b2 key s4 ≡ done (pos 0) s')
          × (contents s' ≡ locked_away K C enc (contents s4) path bytes d rest t))
        (λ rest t.
          (s' : K.State) × (processencryption K C fuel (some path) key s ≡ done (pos 0) s')
          × (contents s' ≡ locked_away K C enc (contents s) path bytes d rest t))
        goes_on files (λ rest now (s', runs, final). (s', goes_on ∙ runs, final ∙ rw files refl))
        (encrypt_named_lem fuel f b2 path d bytes s4 named (rw files source) held finds fits enough)
