-- ===== src/Compress/Round.antt =====
-- A round of the loop of `compress_file` on a healthy volume.
use asynchronous_file_system.Common.{
  ℕ, suc, ◌-◌, ◌*◌, ◌^◌, ◌≤◌, ◌<◌, ◌≡◌, ◌≢◌, ◌∙◌, refl, ℤ, pos, ltb_ℤ, add_int, to_u32, min, true,
  some, List, ◌++◌, length, take, drop, length-take, take-append_inside, update, arith,
}
use asynchronous_file_system.Kernel.{Kernel}
use asynchronous_file_system.Kernel.Constants.{page_size}
use asynchronous_file_system.Kernel.Monad.{choose, steps}
use asynchronous_file_system.Kernel.Volume.{Volume, IsHealthy}
use asynchronous_file_system.Encrypt.Seal.{chunk_size}
use asynchronous_file_system.Encrypt.Chunk.{
  next_size_lem, size_left_lem, read_state, read_chunk_runs, read_state_keeps, part, length-part,
  chunk-eq-part,
}
use asynchronous_file_system.Compress.{Compressor, compress_loop}
use asynchronous_file_system.Compress.Packer.{IsPacker, compress_buffer_lem}
use asynchronous_file_system.Compress.Layout.{write_chunk_lem}
use asynchronous_file_system.Compress.Packed.{Packs, packed_part, size_text, length-print_size}

module _ (K : Kernel) (V : Volume K) (H : IsHealthy K V) (Z : Compressor K.State)
    (comp : List ℕ → List ℕ) (Q : IsPacker K V Z comp) where
  open V use {contents, path_of}

  module _ (infile outfile : K.File) (d : List ℕ) (out_len : ℤ)
      (apart : path_of infile ≢ path_of outfile) (small : length d < 2 ^ 31)
      (room : page_size ≤ to_u32 out_len) (packs : Packs comp d) where
    abbrev out : ℕ → List ℕ
    out = packed_part comp d

    -- Before chunk k: the input is there, and the trash file ends in a tail that the chunk goes over.
    pub record Progress (k : ℕ) (p tail tei : List ℕ) (s : K.State) : Type 0 where
      pub source : contents s (path_of infile) ≡ some d
      pub target : contents s (path_of outfile) ≡ some (p ++ tail)
      pub length-p : length p ≡ 8 * k
      pub short : length tail ≤ 4
      pub four : length tei ≡ 4

    pub round :
        (fuel k : ℕ) (p tail tei : List ℕ) (err : ℤ) (s : K.State)
        → k * chunk_size < length d
        → Progress k p tail tei s
        → (after : K.State) × (compress_loop K Z
              (suc fuel)
              infile
              outfile
              out_len
              tei
              err
              (pos (length d - k * chunk_size))
              (pos (k * chunk_size))
              (pos (length p))
              s
            ≡ compress_loop K Z fuel infile outfile out_len
                (size_text comp d k tei)
                (pos (length (out k)))
                (pos (length d - k * chunk_size - chunk_size))
                (add_int (pos (k * chunk_size)) (pos (length (part d k))))
                (add_int (pos (length p)) (pos 8))
                after)
          × (contents after
              ≡ update
                  (contents s)
                  (path_of outfile)
                  (some (p ++ size_text comp d k tei ++ take 8 (out k))))
    unfolding compress_loop choose steps
    round fuel k p tail tei err s more g =
        let (page3, got3) = H.kmalloc_some page_size s in
        let s1 = (K.kmalloc page_size s).1 in
        let (page4, got4) = H.kmalloc_some page_size s1 in
        let s2 = (K.kmalloc page_size s1).1 in
        let m = length d - k * chunk_size in
        let files2 : contents s2 ≡ contents s =
          H.kmalloc_keeps page_size s1 ∙ H.kmalloc_keeps page_size s in
        let reads =
          read_chunk_runs K V H infile (k * chunk_size) (min chunk_size m) page3.bytes s2 d
            (rw files2 g.source) (omega arith) (omega arith) in
        let s3 = read_state K V H infile page3.bytes (min chunk_size m) (k * chunk_size) s2 in
        let files3 : contents s3 ≡ contents s =
          read_state_keeps K V H infile page3.bytes (min chunk_size m) (k * chunk_size) s2
          ∙ files2 in
        let long4 : length page4.bytes ≡ page_size = Q.kmalloc_length page_size s1 page4 got4 in
        let bounds = packs k more in
        let (s4, packed, files4) =
          compress_buffer_lem K V H Z comp Q (part d k) (drop (length (part d k)) page3.bytes)
            page4.bytes out_len s3 (omega (arith, length-part d k)) (omega (arith, bounds.1))
            (omega (arith, bounds.1)) (omega arith) in
        let eight : take 8 (out k ++ drop (length (out k)) page4.bytes) ≡ take 8 (out k) =
          take-append_inside 8 (out k) _ bounds.0 in
        let wrote : length (take 8 (out k)) ≡ 8 = omega (arith, length-take 8 (out k), bounds.0) in
        let (s5, writes, effect) =
          write_chunk_lem K Z V H outfile p tail (size_text comp d k tei)
            (out k ++ drop (length (out k)) page4.bytes) s4 (rw (files4, files3) g.target) g.short
            (length-print_size tei _ g.four) (omega (arith, g.length-p)) in
        (
          K.kfree page4.addr (K.kfree page3.addr s5),
          rw
              (
                next_size_lem m,
                size_left_lem m,
                positive,
                got3,
                got4,
                rw (chunk-eq-part K V d k) at reads,
                packed,
                rw (eight, wrote) at writes,
              )
              refl,
          H.kfree_keeps _ _ ∙ H.kfree_keeps _ _ ∙ effect ∙ rw (eight, files4, files3) refl,
        )
      where
        positive : ltb_ℤ (pos 0) (pos (length d - k * chunk_size)) ≡ true
        positive = ground arith
