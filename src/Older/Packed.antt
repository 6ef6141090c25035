-- ===== src/Older/Packed.antt =====
-- What `compress_file` makes of a file of one chunk.
use asynchronous_file_system.Common.{
  ℕ, suc, ◌-◌, ◌≤◌, ◌<◌, ◌≡◌, ◌≢◌, ◌∙◌, refl, ℤ, pos, ltb_ℤ, to_u32, min, true, some, List, [],
  ◌++◌, length, take, drop, take_all, update, arith,
}
use asynchronous_file_system.Kernel.{Kernel}
use asynchronous_file_system.Kernel.Constants.{page_size}
use asynchronous_file_system.Kernel.Monad.{done, choose, steps}
use asynchronous_file_system.Kernel.Volume.{Volume, IsHealthy}
use asynchronous_file_system.Encrypt.Seal.{chunk_size}
use asynchronous_file_system.Encrypt.Chunk.{
  next_size_lem, size_left_lem, read_state, read_chunk_runs, read_state_keeps,
}
use asynchronous_file_system.Compress.{Compressor, compress_loop, print_size}
use asynchronous_file_system.Compress.Packer.{IsPacker, compress_buffer_lem}
use asynchronous_file_system.Compress.Layout.{write_chunk_lem}
use asynchronous_file_system.Older.{Decompressor}

-- A compressor that fails only where its output does not fit, and its inverse; the calls touch no file.
pub record IsLossless (K : Kernel) (V : Volume K) (Z : Compressor K.State) (Y : Decompressor Z)
    (comp : List ℕ → List ℕ) : Type 0 where
  pub packer : IsPacker K V Z comp
  pub decompress_result :
      (t : Z.Tfm) (input : List ℕ) (n : ℕ) (s : K.State)
      → length input ≤ n
      → (Y.comp_decompress t (comp input) n s).0 ≡ (pos 0, input, length input)
  pub decompress_keeps :
      (t : Z.Tfm) (packed : List ℕ) (n : ℕ) (s : K.State)
      → V.contents (Y.comp_decompress t packed n s).1 ≡ V.contents s

module _ (K : Kernel) (V : Volume K) (H : IsHealthy K V) (Z : Compressor K.State)
    (Y : Decompressor Z) (comp : List ℕ → List ℕ) (Q : IsLossless K V Z Y comp) where
  open V use {contents, path_of}

  module _ (f t : K.File) (d : List ℕ) (apart : path_of f ≢ path_of t) (some_bytes : 0 < length d)
      (one_chunk : length d ≤ chunk_size) where
    -- The packed chunk, in a page of these bytes.
    abbrev pub in_page : List ℕ → List ℕ
    in_page page = comp d ++ drop (length (comp d)) page

    -- On a healthy volume, with a compressor that does not fail, of a file of at least one byte and at
    -- most one chunk, with room for its output and a size text of four bytes, the loop leaves in an
    -- empty output file the size text and eight bytes, the first of the output and then of the page that
    -- it was put in, returns the size of the output, and changes no other file.
    pub compress_loop_one :
        (fuel : ℕ) (out_len : ℤ) (tei : List ℕ) (s : K.State)
        → contents s (path_of f) ≡ some d
        → contents s (path_of t) ≡ some []
        → length (comp d) ≤ to_u32 out_len
        → length (comp d) ≤ page_size
        → length (print_size tei (pos (length (comp d)))) ≡ 4
        → (page : List ℕ) × (s' : K.State) × (compress_loop K Z
              (suc (suc fuel))
              f
              t
              out_len
              tei
              (pos 0)
              (pos (length d))
              (pos 0)
              (pos 0)
              s
            ≡ done (pos (length (comp d))) s')
          × (contents s'
              ≡ update
                  (contents s)
                  (path_of t)
                  (some (print_size tei (pos (length (comp d))) ++ take 8 (in_page page))))
          × (length page ≡ page_size)
    unfolding compress_loop choose steps
    compress_loop_one fuel out_len tei s source target room fits four =
        let (page3, got3) = H.kmalloc_some page_size s in
        let s1 = (K.kmalloc page_size s).1 in
        let (page4, got4) = H.kmalloc_some page_size s1 in
        let s2 = (K.kmalloc page_size s1).1 in
        let n = length d in
        let files2 : contents s2 ≡ contents s =
          H.kmalloc_keeps page_size s1 ∙ H.kmalloc_keeps page_size s in
        let reads =
          read_chunk_runs K V H f 0 n page3.bytes s2 d (rw files2 source) (omega arith)
            (omega arith) in
        let s3 = read_state K V H f page3.bytes n 0 s2 in
        let files3 : contents s3 ≡ contents s =
          read_state_keeps K V H f page3.bytes n 0 s2 ∙ files2 in
        let long4 : length page4.bytes ≡ page_size =
          Q.packer.kmalloc_length page_size s1 page4 got4 in
        let (s4, packs, files4) =
          compress_buffer_lem K V H Z comp Q.packer d (drop n page3.bytes) page4.bytes out_len s3
            (omega arith) room (omega arith) (omega arith) in
        let sized = print_size tei (pos (length (comp d))) in
        let (s5, writes, effect) =
          write_chunk_lem K Z V H t [] [] sized (in_page page4.bytes) s4
            (rw (files4, files3) target) (omega arith) four (omega arith) in
        (
          page4.bytes,
          K.kfree page4.addr (K.kfree page3.addr s5),
          rw
              (
                next_size_lem n,
                size_left_lem n,
                whole,
                positive,
                got3,
                got4,
                rw all at reads,
                packs,
                writes,
                nothing_left,
              )
              refl,
          H.kfree_keeps _ _ ∙ H.kfree_keeps _ _ ∙ effect ∙ rw (files4, files3) refl,
          long4,
        )
      where
        whole : min chunk_size (length d) ≡ length d
        whole = omega arith

        positive : ltb_ℤ (pos 0) (pos (length d)) ≡ true
        positive = ground arith

        all : take (length d) d ≡ d
        all = take_all (length d) d (omega arith)

        nothing_left : length d - chunk_size ≡ 0
        nothing_left = omega arith
