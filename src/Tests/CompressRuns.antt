-- ===== src/Tests/CompressRuns.antt =====
-- The chunks of the compression, and the file that is too large for it, at concrete machines.
use asynchronous_file_system.Common.{
  ◌≡◌, ◌++◌, ◌^◌, length, replicate, none, refl, pos, some, List, [], ◌∷◌, ℕ, codes, update,
  add_int, arith,
}
use asynchronous_file_system.Cipher.Padding.{length-replicate}
use asynchronous_file_system.Kernel.Monad.{done}
use asynchronous_file_system.Kernel.Memory.{Machine, memory_kernel, memory_volume, memory_healthy}
use asynchronous_file_system.Compress.{write_chunk, compress_into}
use asynchronous_file_system.Compress.Sizes.{compress_into_loses}
use asynchronous_file_system.Compress.Layout.{write_chunk-write_chunk}
use asynchronous_file_system.Tests.Machines.{compressor, path, text, machine}

abbrev size_text : List ℕ
size_text = codes "10" ++ (0 ∷ 0 ∷ [])

-- The file holds "hello"; its bytes after two chunks of ten bytes each.
write_chunk-write_chunk_example :
    (s1 s2 : Machine) × (write_chunk memory_kernel compressor path size_text
        (codes "abcdefghij")
        (pos 5)
        machine
      ≡ done (pos 8) s1)
    × (write_chunk memory_kernel compressor path size_text
          (codes "ABCDEFGHIJ")
          (add_int (pos 5) (pos 8))
          s1
        ≡ done (pos 8) s2)
    × (s2.disk
        ≡ update machine.disk path
            (some (text ++ size_text ++ codes "abcd" ++ size_text ++ codes "ABCDEFGH")))
write_chunk-write_chunk_example =
    write_chunk-write_chunk memory_kernel compressor memory_volume memory_healthy path text
      size_text (codes "abcdefghij") size_text (codes "ABCDEFGHIJ") machine refl refl refl
      (omega arith) (omega arith)

-- Shut, so that no list of this length is computed.
unfoldable zeros : ℕ → List ℕ
zeros n = replicate n 0

length-zeros : (n : ℕ) → length (zeros n) ≡ n
unfolding zeros
length-zeros n = length-replicate n 0

-- A file of 2 GiB.
abbrev large : List ℕ
large = zeros (2 ^ 31)

abbrev large_machine : Machine
large_machine = record machine { disk = update (λ p. none) path (some large) }

compress_into_loses_example :
    (s' : Machine) × (compress_into memory_kernel compressor 1 path
        (codes "/t")
        (record { addr = 1; bytes = [] })
        large_machine
      ≡ done (pos 0) s')
    × (s'.disk ≡ update large_machine.disk path none)
compress_into_loses_example =
    compress_into_loses memory_kernel compressor memory_volume memory_healthy 0 path (codes "/t")
      (record { addr = 1; bytes = [] }) large_machine large refl
      (omega (arith, length-zeros (2 ^ 31))) (omega (arith, length-zeros (2 ^ 31)))
