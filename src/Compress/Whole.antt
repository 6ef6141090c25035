-- ===== src/Compress/Whole.antt =====
-- The whole of `processcompress` on a healthy volume.
use asynchronous_file_system.Common.{
  ℕ, ◌+◌, ◌*◌, ◌^◌, ◌<◌, ◌≡◌, ◌≢◌, ◌∙◌, refl, sym, ap, pos, to_int_small, none, some, Option, List,
  [], codes, length, lt_or_le, inl, inr, update, update_self, update_ne, update-update, arith,
}
use asynchronous_file_system.Kernel.{Kernel, Buffer}
use asynchronous_file_system.Kernel.Constants.{path_max, mode_0644}
use asynchronous_file_system.Kernel.Monad.{done, if_null, if_bad, steps}
use asynchronous_file_system.Kernel.Volume.{Volume, IsHealthy, or_empty}
use asynchronous_file_system.FileIo.{file_close}
use asynchronous_file_system.FileIo.Opens.{
  IsCalendar, file_open_lem, file_creat_lem, delete_input_lem,
}
use asynchronous_file_system.Encrypt.Seal.{chunks}
use asynchronous_file_system.Encrypt.Whole.{
  leftover, name_with, name_with-ne, FindsPath, ByPage, ByPage-map, name_in_page_lem,
  name_in_page_overruns,
}
use asynchronous_file_system.Compress.{
  Compressor, address_as_int, compress_file, compress_into, compress_named, processcompress,
}
use asynchronous_file_system.Compress.Packer.{IsPacker, IsRoomy}
use asynchronous_file_system.Compress.Loop.{compress_loop_packs}
use asynchronous_file_system.Compress.Packed.{Packs, layout, last_size, length-layout_any}

-- The whole packed file, where the array for the size texts holds `tei` at first.
abbrev pub packed_file : (List ℕ → List ℕ) → List ℕ → List ℕ → List ℕ
packed_file comp d tei = layout comp d (chunks (length d)) 0 [] tei

-- The files after the compression of `path` at the time `t`.
abbrev pub packed_away :
    (K : Kernel) (comp : List ℕ → List ℕ)
    → (List ℕ → Option (List ℕ))
    → List ℕ
    → List ℕ
    → List ℕ
    → ℕ
    → List ℕ
    → List ℕ
    → Option (List ℕ)
packed_away K comp files path d rest t tei =
    update (update files (name_with K rest (codes ".cmp") path t) (some (packed_file comp d tei)))
      path none

module _ (K : Kernel) (V : Volume K) (H : IsHealthy K V) (Z : Compressor K.State)
    (comp : List ℕ → List ℕ) (Q : IsPacker K V Z comp) (R : IsRoomy K) where
  open V use {contents, path_of}

  pub compress_file_packs :
      (fuel : ℕ) (f t : K.File) (d : List ℕ) (s : K.State)
      → path_of f ≢ path_of t
      → contents s (path_of f) ≡ some d
      → contents s (path_of t) ≡ some []
      → length d < 2 ^ 31
      → Packs comp d
      → chunks (length d) < fuel
      → (s' : K.State) × (compress_file K Z fuel f t s
          ≡ done (last_size comp d (chunks (length d)) 0 (pos 0)) s')
        × (contents s'
            ≡ update (contents s) (path_of t) (some (packed_file comp d (K.garbage 4 s))))
  unfolding compress_file steps
  compress_file_packs fuel f t d s apart source target small packs enough =
      let (b, got) = H.kmalloc_some 4 s in
      let s1 = (K.kmalloc 4 s).1 in
      let same : contents s1 ≡ contents s = H.kmalloc_keeps 4 s in
      let here : contents s1 (path_of f) ≡ some d = rw same source in
      let (s', runs, final) =
        compress_loop_packs K V H Z comp Q f t d (address_as_int (some b)) apart small
          (R.address_room s b got) packs fuel (K.garbage 4 s) s1 here (rw same target)
          (R.length-garbage 4 s) enough in
      (s', rw (got, H.size f s1 d here, to_int_small (length d) small) runs, final ∙ rw same refl)

  compress_into_packs :
      (fuel : ℕ) (f t : K.File) (room : Buffer) (d : List ℕ) (s : K.State)
      → path_of f ≢ path_of t
      → contents s (path_of f) ≡ some d
      → contents s (path_of t) ≡ some []
      → length d < 2 ^ 31
      → Packs comp d
      → chunks (length d) < fuel
      → (s' : K.State) × (compress_into K Z fuel f t room s ≡ done (pos 0) s')
        × (contents s'
            ≡ update
                (update (contents s) (path_of t) (some (packed_file comp d (K.garbage 4 s))))
                (path_of f)
                none)
  unfolding compress_into file_close steps
  compress_into_packs fuel f t room d s apart source target small packs enough =
      let (s1, runs, effect) =
        compress_file_packs fuel f t d s apart source target small packs enough in
      let held : contents s1 (path_of f) ≡ some d =
        rw effect (update_ne (contents s) _ _ _ (λ e. apart (sym e)) ∙ source) in
      let (s2, deleted, left) = delete_input_lem K V H f s1 d held in
      (
        K.kfree room.addr (K.filp_close t s2),
        rw (runs, deleted) refl,
        H.kfree_keeps _ _ ∙ H.close_keeps _ _ ∙ left ∙ rw effect refl,
      )

  module _ (T : IsCalendar K) where
    compress_named_packs :
        (fuel : ℕ) (filename : Buffer) (path d : List ℕ) (s : K.State)
        → contents s path ≡ some d
        → ((rest : List ℕ) (t : ℕ) → contents s (name_with K rest (codes ".cmp") path t) ≡ none)
        → FindsPath K V path
        → length d < 2 ^ 31
        → Packs comp d
        → chunks (length d) < fuel
        → ByPage K V (length path + 36) (compress_named K Z fuel (some path) filename) s (λ rest t.
          (s' : K.State) × (tei : List ℕ) × (compress_named K Z fuel (some path) filename s
            ≡ done (pos 0) s')
          × (contents s' ≡ packed_away K comp (contents s) path d rest t tei)
          × (length tei ≡ 4))
    unfolding compress_named if_bad steps
    compress_named_packs fuel filename path d s source unused finds small packs enough =
        let time = K.do_gettimeofday s in
        let (room, got) = H.kmalloc_some path_max s in
        let rest = leftover K room in
        let name = name_with K rest (codes ".cmp") path time in
        let apart : path ≢ name = name_with-ne K T rest (codes ".cmp") path time (T.early s) in
        let s1 = (K.kmalloc path_max s).1 in
        let same : contents s1 ≡ contents s = H.kmalloc_keeps path_max s in
        let (f, s2, opened, named, kept) = file_open_lem K V H path 0 s1 d (rw same source) in
        let found = finds.found f filename s2 named in
        let (g, s3, made, named_g, created) = file_creat_lem K V H name mode_0644 s2 in
        let at_3 : contents s3 ≡ update (contents s) name (some []) =
          created
          ∙ rw (kept, same)
              (ap (λ (o : Option (List ℕ)). update (contents s) name (some (or_empty o)))
                (unused rest time)) in
        let (s4, runs, final) =
          compress_into_packs fuel f g room d s3 (rw (named, named_g) apart)
            (rw (named, at_3) (update_ne (contents s) name path _ (λ q. apart (sym q)) ∙ source))
            (rw (named_g, at_3) (update_self (contents s) name _)) small packs enough in
        (
          room,
          s,
          got,
          elim (lt_or_le path_max (length path + 36 + length rest)) [
            | inl long ↦
                let stops =
                  name_in_page_overruns K V T f filename room time (codes ".cmp") path s2 found
                    (T.early s) (omega arith) in
                inr (long, s2, rw (got, opened, stops) refl, kept ∙ same)
            | inr short ↦
                let names =
                  name_in_page_lem K V T f filename room time (codes ".cmp") path s2 found
                    (T.early s) (omega arith) in
                inl (
                  short,
                  (
                    s4,
                    K.garbage 4 s3,
                    rw (got, opened, names, made) runs,
                    final
                        ∙ rw
                            (
                              named,
                              named_g,
                              at_3,
                              update-update (contents s) name (some [])
                                  (some (packed_file comp d (K.garbage 4 s3))),
                            )
                            refl,
                    R.length-garbage 4 s3,
                  ),
                )
          ],
        )

    -- On a healthy volume, while the clock shows a date from 1900 to 9999 whose minutes fit an
    -- `int` and `strreplace` keeps the length of a string, with a compressor that fails only
    -- where its output does not fit, where an address of four bytes, taken for the room for that
    -- output, is at least a page, for a file of less than 2 ^ 31 bytes whose path `d_path` finds,
    -- if no file has a trash name of that path with any text behind "/usr", each chunk packs into
    -- at least eight bytes and at most a page, and with fuel for one round a chunk and one more,
    -- for some page that `kmalloc` hands out and the text behind its fourth byte: if the path is
    -- at most 4060 bytes less that text, `processcompress` returns 0, the input's name is gone,
    -- and the file whose name is "/usr", that text, "/trashbin/", the stamp of the clock and the
    -- path holds, for each chunk, the text of its packed size and four packed bytes, and then
    -- four more of the last chunk, so eight bytes a chunk and four more if the input is not
    -- empty. No other file has changed. Else it stops at a write past the page, and no file has
    -- changed.
    pub processcompress_packs :
        (fuel : ℕ) (path d : List ℕ) (s : K.State)
        → contents s path ≡ some d
        → ((rest : List ℕ) (t : ℕ) → contents s (name_with K rest (codes ".cmp") path t) ≡ none)
        → FindsPath K V path
        → length d < 2 ^ 31
        → Packs comp d
        → chunks (length d) < fuel
        → ByPage K V (length path + 36) (processcompress K Z fuel (some path)) s (λ rest t.
          (s' : K.State) × (tei : List ℕ) × (processcompress K Z fuel (some path) s
            ≡ done (pos 0) s')
          × (contents s' ≡ packed_away K comp (contents s) path d rest t tei)
          × (0 < length d → length (packed_file comp d tei) ≡ 8 * chunks (length d) + 4))
    unfolding processcompress if_null steps
    processcompress_packs fuel path d s source unused finds small packs enough =
        let (b1, got1) = H.kmalloc_some path_max s in
        let s1 = (K.kmalloc path_max s).1 in
        let (b2, got2) = H.kmalloc_some path_max s1 in
        let s2 = (K.kmalloc path_max s1).1 in
        let (b3, got3) = H.kmalloc_some path_max s2 in
        let s3 = (K.kmalloc path_max s2).1 in
        let files : contents s3 ≡ contents s =
          H.kmalloc_keeps path_max s2 ∙ H.kmalloc_keeps path_max s1 ∙ H.kmalloc_keeps path_max s in
        let goes_on : processcompress K Z fuel (some path) s
            ≡ compress_named K Z fuel (some path) b2 s3 =
          rw (got1, got2, got3) refl in
        ByPage-map K V (length path + 36) (processcompress K Z fuel (some path))
          (compress_named K Z fuel (some path) b2) s s3
          (λ rest t.
            (s' : K.State) × (tei : List ℕ) × (compress_named K Z fuel (some path) b2 s3
              ≡ done (pos 0) s')
            × (contents s' ≡ packed_away K comp (contents s3) path d rest t tei)
            × (length tei ≡ 4))
          (λ rest t.
            (s' : K.State) × (tei : List ℕ) × (processcompress K Z fuel (some path) s
              ≡ done (pos 0) s')
            × (contents s' ≡ packed_away K comp (contents s) path d rest t tei)
            × (0 < length d → length (packed_file comp d tei) ≡ 8 * chunks (length d) + 4))
          goes_on files
          (λ rest now (s', tei, runs, final, four). (
            s',
            tei,
            goes_on ∙ runs,
            final ∙ rw files refl,
            λ some_bytes.
                length-layout_any comp d (chunks (length d)) 0 [] tei (omega arith) four packs
                  (omega arith),
          ))
          (compress_named_packs fuel b2 path d s3 (rw files source)
            (λ rest t. rw files (unused rest t)) finds small packs enough)
