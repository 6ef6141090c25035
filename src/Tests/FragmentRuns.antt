-- ===== src/Tests/FragmentRuns.antt =====
-- The fragments at concrete files.
use asynchronous_file_system.Common.{
  ℕ, ◌≡◌, refl, pos, none, some, List, ◌==◌, if◌then◌else◌, codes, length, replicate, update, arith,
}
use asynchronous_file_system.Kernel.Constants.{page_size}
use asynchronous_file_system.Kernel.Monad.{done, overrun}
use asynchronous_file_system.Kernel.Memory.{Machine, memory_kernel, memory_volume, memory_healthy}
use asynchronous_file_system.Cipher.Padding.{length-replicate}
use asynchronous_file_system.Fragments.Compression.{read_file, write_file}
use asynchronous_file_system.Fragments.Compression.Offsets.{read_file-write_file}
use asynchronous_file_system.Fragments.Dedup.{ended, compare_loop, xdedup_loop}
use asynchronous_file_system.Fragments.Dedup.Compare.{common, compare_loop-common}
use asynchronous_file_system.Fragments.Dedup.Difference.{xdedup_first_difference}
use asynchronous_file_system.Tests.Machines.{machine, path, text, length-filled}

-- The file holds "hello"; four bytes are written at offset 3, and read_file is told offset 9.
read_file-write_file_example :
    (s1 s2 : Machine) × (write_file memory_kernel path 4 (codes "pful") 3 1 machine
      ≡ done (pos 4, 0) s1)
    × (read_file memory_kernel path 6 (codes "......!") 9 0 s1
        ≡ done (pos 6, codes "helpfu!", 6) s2)
    × (s2.disk ≡ update machine.disk path (some (codes "helpful")))
read_file-write_file_example =
    read_file-write_file memory_kernel memory_volume memory_healthy path (codes "pful")
      (codes "......!") text 6 3 9 1 machine refl (omega arith) (omega arith)

-- Shut, so that the pages are not computed.
unfoldable page_of : ℕ → List ℕ
page_of b = replicate page_size b

length-page_of : (b : ℕ) → length (page_of b) ≡ page_size
unfolding page_of
length-page_of b = length-replicate page_size b

compare_loop-common_example : compare_loop 4097 (page_of 1) (page_of 2) 0 machine ≡ (
    if common (page_of 1) (page_of 2) == page_size
    then overrun machine
    else done (common (page_of 1) (page_of 2)) machine)
compare_loop-common_example =
    compare_loop-common machine (page_of 1) (page_of 2) (length-page_of 1) (length-page_of 2)

abbrev three_files : Machine
three_files = record machine {
  disk =
      update (update machine.disk (codes "/b") (some (codes "help"))) (codes "/c")
        (some (codes ".........."));
}

xdedup_first_difference_example :
    (s' : Machine) × (xdedup_loop memory_kernel 1 path
        (codes "/b")
        (codes "/c")
        (codes "/c")
        none
        5
        (pos 0)
        0
        0
        0
        three_files
      ≡ done (ended (pos 3) 5 4 3) s')
    × (s'.disk ≡ update three_files.disk (codes "/c") (some (codes "hel.......")))
xdedup_first_difference_example =
    xdedup_first_difference memory_kernel memory_volume memory_healthy (length-filled 0xaa) path
      (codes "/b") (codes "/c") (codes "/c") none text (codes "help") (codes "..........")
      (omega arith, omega arith) (omega arith, omega arith) (omega arith) 0 three_files refl refl
      refl
