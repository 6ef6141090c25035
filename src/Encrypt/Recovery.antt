-- ===== src/Encrypt/Recovery.antt =====
-- A file that `processencryption` has moved away can be had back with its key.
use asynchronous_file_system.Common.{
  refl, ℕ, ◌+◌, ◌*◌, ◌%◌, ◌^◌, ◌<◌, ◌≡◌, ◌≢◌, ◌∙◌, ap, pos, Option, none, some, List, codes, length,
  take, overlay, overlay-nil, update, update_self, update_ne, c_string,
}
use asynchronous_file_system.Kernel.{Kernel}
use asynchronous_file_system.Kernel.Constants.{page_size}
use asynchronous_file_system.Kernel.Monad.{done}
use asynchronous_file_system.Kernel.Volume.{Volume, IsHealthy, or_empty}
use asynchronous_file_system.FileIo.Opens.{IsCalendar}
use asynchronous_file_system.Cipher.{BlockCipher}
use asynchronous_file_system.Encrypt.{processencryption}
use asynchronous_file_system.Encrypt.Seal.{chunks, unseal}
use asynchronous_file_system.Encrypt.Laws.{IsCipher, IsKept}
use asynchronous_file_system.Encrypt.Result.{encrypted, unseal-encrypted}
use asynchronous_file_system.Encrypt.Whole.{
  name_with, name_with-ne, locked_away, FindsPath, ByPage, ByPage-map, processencryption_seals,
}

-- What is left of `path` with the bytes d: nothing under its own name, and under its trash name what
-- `dec` with the key, page by page and without the padding, turns back into d.
abbrev pub IsRecoverable :
    (K : Kernel)
    → BlockCipher K.State
    → (List ℕ → List ℕ → List ℕ → List ℕ)
    → (List ℕ → Option (List ℕ))
    → (path d bytes rest : List ℕ) → ℕ
    → Type 0
IsRecoverable K C dec files path d bytes rest t =
    (sealed : List ℕ) × (files path ≡ none)
    × (files (name_with K rest (codes ".enc") path t) ≡ some sealed)
    × (unseal (dec (c_string bytes) (take 16 C.aes_iv)) (chunks (length d)) sealed ≡ d)

module _ (K : Kernel) (V : Volume K) (C : BlockCipher K.State) (key : ℕ) (H : IsHealthy K V)
    (L : IsKept K V C key) (enc dec : List ℕ → List ℕ → List ℕ → List ℕ) (E : IsCipher K V C enc)
    (T : IsCalendar K) where
  open V use {contents, path_of}

  -- What the trash file holds, if there was none of its name.
  locked_away_new :
      (files : List ℕ → Option (List ℕ)) (path bytes d rest : List ℕ) (t : ℕ)
      → path ≢ name_with K rest (codes ".enc") path t
      → files (name_with K rest (codes ".enc") path t) ≡ none
      → locked_away K C enc files path bytes d rest t (name_with K rest (codes ".enc") path t)
        ≡ some (encrypted C enc bytes d)
  locked_away_new files path bytes d rest t apart new =
      let name = name_with K rest (codes ".enc") path t in
      let sealed = encrypted C enc bytes d in
      update_ne (update files name (some (overlay (or_empty (files name)) sealed))) path name none
        apart
      ∙ update_self files name (some (overlay (or_empty (files name)) sealed))
      ∙ ap (λ o. some (overlay (or_empty o) sealed)) new
      ∙ ap some (overlay-nil sealed)

  locked_away_path :
      (files : List ℕ → Option (List ℕ)) (path bytes d rest : List ℕ) (t : ℕ)
      → locked_away K C enc files path bytes d rest t path ≡ none
  locked_away_path files path bytes d rest t =
      let name = name_with K rest (codes ".enc") path t in
      update_self
        (update files name (some (overlay (or_empty (files name)) (encrypted C enc bytes d)))) path
        none

  -- On a healthy volume, while the clock shows a date from 1900 to 9999 whose minutes fit an
  -- `int` and `strreplace` keeps the length of a string, with a cipher that does not fail and has
  -- an inverse on whole blocks, and where nothing but the `kfree` of its own address touches the
  -- key, `kmalloc` hands out other addresses and as many bytes as it is asked for, and the calls
  -- of the cipher touch no file, for a live key, a file whose path `d_path` finds and whose
  -- encrypted chunks are less than 2 ^ 31 bytes, if no file has a trash name of that path with
  -- any text behind "/usr", and with fuel for one round a chunk and one more, for some page that
  -- `kmalloc` hands out and the text behind its fourth byte: if the path is at most 4060 bytes
  -- less that text, `processencryption` returns 0, the input is gone, and the file whose name is
  -- "/usr", that text, "/trashbin/", the stamp of the clock and the path holds what the inverse
  -- with the key, page by page and without the padding, turns back into the bytes of the input.
  -- Else it stops at a write past the page, and no file has changed.
  pub processencryption_recovers :
      ((k iv m : List ℕ) → length m % 16 ≡ 0 → length (enc k iv m) ≡ length m)
      → ((k iv m : List ℕ) → length m % 16 ≡ 0 → dec k iv (enc k iv m) ≡ m)
      → (fuel : ℕ) (path d bytes : List ℕ) (s : K.State) → contents s path ≡ some d
      → ((rest : List ℕ) (t : ℕ) → contents s (name_with K rest (codes ".enc") path t) ≡ none)
      → K.load key s ≡ some bytes
      → FindsPath K V path
      → chunks (length d) * page_size < 2 ^ 31
      → chunks (length d) < fuel
      → ByPage K V (length path + 36) (processencryption K C fuel (some path) key) s (λ rest t.
        (s' : K.State) × (processencryption K C fuel (some path) key s ≡ done (pos 0) s')
        × IsRecoverable K C dec (contents s') path d bytes rest t)
  processencryption_recovers lengths inverse fuel path d bytes s source new there finds fits
        enough =
      ByPage-map K V (length path + 36) (processencryption K C fuel (some path) key)
        (processencryption K C fuel (some path) key) s s
        (λ rest t.
          (s' : K.State) × (processencryption K C fuel (some path) key s ≡ done (pos 0) s')
          × (contents s' ≡ locked_away K C enc (contents s) path bytes d rest t))
        (λ rest t.
          (s' : K.State) × (processencryption K C fuel (some path) key s ≡ done (pos 0) s')
          × IsRecoverable K C dec (contents s') path d bytes rest t)
        refl refl
        (λ rest now (s', runs, final). (
          s',
          runs,
          (
            encrypted C enc bytes d,
            ap (λ (files : List ℕ → Option (List ℕ)). files path) final
                ∙ locked_away_path (contents s) path bytes d rest (K.do_gettimeofday now),
            ap
                  (λ (files : List ℕ → Option (List ℕ)).
                    files (name_with K rest (codes ".enc") path (K.do_gettimeofday now)))
                  final
                ∙ locked_away_new (contents s) path bytes d rest (K.do_gettimeofday now)
                    (name_with-ne K T rest (codes ".enc") path (K.do_gettimeofday now)
                      (T.early now))
                    (new rest (K.do_gettimeofday now)),
            unseal-encrypted C enc dec lengths inverse bytes d,
          ),
        ))
        (processencryption_seals K V C key H L enc E T fuel path d bytes s source there finds fits
          enough)
