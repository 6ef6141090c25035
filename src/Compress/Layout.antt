-- ===== src/Compress/Layout.antt =====
-- Where `compress_file` puts the chunks in the trash file: the two writes of `write_chunk`.
use asynchronous_file_system.Common.{
  ℕ, ◌+◌, ◌^◌, ◌≤◌, ◌<◌, ◌≡◌, ◌∙◌, refl, sym, ap, pos, to_u64_small, to_int_small, some, List, [],
  ◌∷◌, ◌++◌, append-nil, append_assoc, length, take, take_all, length-append, length-take, overlay,
  splice, update, update_self, add_int, add_int_small, drop, take-append-take, update-update, arith,
}
use asynchronous_file_system.Kernel.{Kernel}
use asynchronous_file_system.Kernel.Monad.{done, steps}
use asynchronous_file_system.Kernel.Volume.{Volume, IsHealthy}
use asynchronous_file_system.Compress.{Compressor, write_chunk}

overlay_longer : (tail bytes : List ℕ) → length tail ≤ length bytes → overlay tail bytes ≡ bytes
overlay_longer [] [] h = refl
overlay_longer (t ∷ tail) [] h = absurd (omega arith)
overlay_longer [] (b ∷ bytes) h = refl
overlay_longer (t ∷ tail) (b ∷ bytes) h =
    ap (λ (r : List ℕ). b ∷ r) (overlay_longer tail bytes (omega arith))

-- A write over the whole tail of a file.
splice_tail :
    (p tail bytes : List ℕ)
    → length tail ≤ length bytes
    → splice (p ++ tail) (length p) bytes ≡ p ++ bytes
splice_tail [] tail bytes h = overlay_longer tail bytes h
splice_tail (x ∷ p) [] [] h = refl
splice_tail (x ∷ p) (t ∷ tail) [] h = absurd (omega arith)
splice_tail (x ∷ p) tail (b ∷ bytes) h =
    ap (λ (r : List ℕ). x ∷ r) (splice_tail p tail (b ∷ bytes) h)

module _ (K : Kernel) (Z : Compressor K.State) (V : Volume K) (H : IsHealthy K V) where
  open V use {contents, path_of}

  over_tail :
      (f : K.File) (p tail bytes : List ℕ) (s : K.State)
      → contents s (path_of f) ≡ some (p ++ tail)
      → length tail ≤ length bytes
      → contents (K.vfs_write f bytes (length p) s).1
        ≡ update (contents s) (path_of f) (some (p ++ bytes))
  over_tail f p tail bytes s held h =
      H.write_contents f bytes (length p) s (p ++ tail) held ∙ rw (splice_tail p tail bytes h) refl

  -- On a healthy volume: over a tail of at most four bytes behind offset n, a chunk is its size in four
  -- bytes and eight bytes of its output, whatever that size is, and the next offset is eight further.
  -- So the next size falls on the last four of these bytes.
  pub write_chunk_lem :
      (f : K.File) (p tail tei out : List ℕ) (s : K.State)
      → contents s (path_of f) ≡ some (p ++ tail)
      → length tail ≤ 4
      → length tei ≡ 4
      → length p < 2 ^ 31
      → (s' : K.State) × (write_chunk K Z f tei out (pos (length p)) s
          ≡ done (pos (length (take 8 out))) s')
        × (contents s' ≡ update (contents s) (path_of f) (some (p ++ tei ++ take 8 out)))
  unfolding write_chunk steps
  write_chunk_lem f p tail tei out s held short four small =
      rw (to_u64_small (length p) (omega arith), take_all 4 tei (omega arith))
        (
          K.set_fs (K.get_fs s)
              (K.vfs_write f (take 8 out) (K.vfs_write f tei (length p) raised).0.f_pos first).1,
          rw (second_count, to_int_small (length (take 8 out)) (omega (arith, length-take 8 out)))
              refl,
          H.set_fs_keeps _ _ ∙ rw next_pos second_contents,
        )
    where
      raised : K.State
      raised = K.set_fs K.kernel_ds s

      held_raised : contents raised (path_of f) ≡ some (p ++ tail)
      held_raised = rw (H.set_fs_keeps K.kernel_ds s) held

      first : K.State
      first = (K.vfs_write f tei (length p) raised).1

      first_contents : contents first ≡ update (contents s) (path_of f) (some (p ++ tei))
      first_contents =
          over_tail f p tail tei raised held_raised (omega arith)
          ∙ rw (H.set_fs_keeps K.kernel_ds s) refl

      next_pos : (K.vfs_write f tei (length p) raised).0.f_pos ≡ length (p ++ tei)
      next_pos =
          rw (H.write_result f tei (length p) raised (p ++ tail) held_raised)
            (sym (length-append p tei))

      held_first : contents first (path_of f) ≡ some (p ++ tei)
      held_first = rw first_contents (update_self (contents s) (path_of f) (some (p ++ tei)))

      second_count :
          (K.vfs_write f (take 8 out) (K.vfs_write f tei (length p) raised).0.f_pos first).0.count
          ≡ pos (length (take 8 out))
      second_count =
          rw
            (H.write_result f (take 8 out) (K.vfs_write f tei (length p) raised).0.f_pos first
              (p ++ tei) held_first)
            refl

      second_contents :
          contents (K.vfs_write f (take 8 out) (length (p ++ tei)) first).1
          ≡ update (contents s) (path_of f) (some (p ++ tei ++ take 8 out))
      second_contents =
          over_tail f (p ++ tei) [] (take 8 out) first
            (held_first ∙ rw (append-nil (p ++ tei)) refl) (omega arith)
          ∙ rw
              (
                first_contents,
                update-update (contents s) (path_of f) (some (p ++ tei))
                    (some ((p ++ tei) ++ take 8 out)),
              )
              refl

  -- On a healthy volume, two chunks one after the other at the end of a file, each size text in four
  -- bytes and the first output of at least eight: the first write counts eight, so the second begins
  -- four bytes before the end of the first chunk, and of the first output four bytes remain.
  pub write_chunk-write_chunk :
      (f : K.File) (p tei1 out1 tei2 out2 : List ℕ) (s : K.State)
      → contents s (path_of f) ≡ some p
      → length tei1 ≡ 4
      → length tei2 ≡ 4
      → 8 ≤ length out1
      → length p + 8 < 2 ^ 31
      → (s1 s2 : K.State) × (write_chunk K Z f tei1 out1 (pos (length p)) s ≡ done (pos 8) s1)
        × (write_chunk K Z f tei2 out2 (add_int (pos (length p)) (pos 8)) s1
            ≡ done (pos (length (take 8 out2))) s2)
        × (contents s2
            ≡ update
                (contents s)
                (path_of f)
                (some (p ++ tei1 ++ take 4 out1 ++ tei2 ++ take 8 out2)))
  write_chunk-write_chunk f p tei1 out1 tei2 out2 s held four1 four2 eight small =
      let (s1, e1, c1) =
        write_chunk_lem f p [] tei1 out1 s (rw (append-nil p) held) (omega arith) four1
          (omega arith) in
      let split : p ++ tei1 ++ take 8 out1 ≡ kept ++ take 4 (drop 4 out1) = sym (
        append_assoc (p ++ tei1) (take 4 out1) (take 4 (drop 4 out1))
        ∙ ap (λ (r : List ℕ). p ++ tei1 ++ r) (take-append-take 4 4 out1)) in
      let held1 : contents s1 (path_of f) ≡ some (kept ++ take 4 (drop 4 out1)) =
        rw c1 (update_self (contents s) (path_of f) (some (p ++ tei1 ++ take 8 out1)))
        ∙ ap (λ (r : List ℕ). some r) split in
      let (s2, e2, c2) =
        write_chunk_lem f kept (take 4 (drop 4 out1)) tei2 out2 s1 held1
          (omega (arith, length-take 4 (drop 4 out1))) four2 (omega (arith, length-kept)) in
      (
        s1,
        s2,
        e1 ∙ ap (λ n. done (pos n) s1) full,
        rw start e2,
        c2 ∙ rw (c1, update-update (contents s) (path_of f)) refl,
      )
    where
      kept : List ℕ
      kept = p ++ tei1 ++ take 4 out1

      length-kept : length kept ≡ length p + 8
      length-kept =
          omega (
            arith,
            length-append (p ++ tei1) (take 4 out1),
            length-append p tei1,
            length-take 4 out1,
          )

      full : length (take 8 out1) ≡ 8
      full = omega (arith, length-take 8 out1)

      start : add_int (pos (length p)) (pos 8) ≡ pos (length kept)
      start = add_int_small (length p) 8 small ∙ ap (λ n. pos n) (sym length-kept)
