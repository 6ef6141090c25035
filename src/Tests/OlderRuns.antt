-- ===== src/Tests/OlderRuns.antt =====
-- A file through the older module's compression and back.
use asynchronous_file_system.Common.{
  ℕ, ◌-◌, ◌≡◌, refl, ℤ, pos, minus, some, List, [], ◌∷◌, ◌++◌, codes, length, take, drop, leb,
  le→leb, if◌then◌else◌, update, bytes_ne, format_d, decimal_small, arith,
}
use asynchronous_file_system.Kernel.Constants.{page_size}
use asynchronous_file_system.Kernel.Monad.{valid, done, oops}
use asynchronous_file_system.Kernel.Memory.{Machine, filled_kernel, filled_volume, filled_healthy}
use asynchronous_file_system.Compress.{Compressor, compress_loop, print_size}
use asynchronous_file_system.Older.{Decompressor, Platform, xclone2_older}
use asynchronous_file_system.Older.Missing.{xclone2_older_oopses}
use asynchronous_file_system.Compress.Packer.{IsPacker}
use asynchronous_file_system.Older.Packed.{IsLossless, compress_loop_one}
use asynchronous_file_system.Tests.Machines.{length-filled, machine, path, text}

-- What is given comes back, if there is room for it.
abbrev copy : List ℕ → ℕ → ℤ × List ℕ × ℕ
copy input n = if leb (length input) n then (pos 0, input, length input) else (minus 22, [], 0)

abbrev stored : Compressor Machine
stored = record {
  Tfm = Unit {0};
  alloc_comp = λ s. (valid tt, s);
  comp_compress = λ t input n s. (copy input n, s);
}

abbrev restored : Decompressor stored
restored = record { comp_decompress = λ t packed n s. (copy packed n, s) }

abbrev first_digit : List ℕ → ℤ → ℤ
first_digit [] old = old
first_digit (c ∷ rest) old = pos (c - 48)

abbrev platform : Platform
platform = record { int_at = λ b. pos 4096; offset_of_f_pos = 40; kstrtoint = first_digit }

stored-IsPacker : IsPacker (filled_kernel 0) (filled_volume 0) stored (λ input. input)
stored-IsPacker = record {
  alloc_valid = λ s. (tt, refl);
  alloc_keeps = λ s. refl;
  compress_result = λ t input n s h. rw (le→leb (length input) n h) refl;
  compress_keeps = λ t input n s. refl;
  kmalloc_length = λ n s b e. length-filled 0 n s b e;
}

stored-IsLossless : IsLossless (filled_kernel 0) (filled_volume 0) stored restored (λ input. input)
stored-IsLossless = record {
  packer = stored-IsPacker;
  decompress_result = λ t input n s h. rw (le→leb (length input) n h) refl;
  decompress_keeps = λ t packed n s. refl;
}

abbrev two_outputs : Machine
two_outputs = record machine {
  disk = update (update machine.disk (codes "out.txt") (some [])) (codes "out.txt.cmp") (some []);
}

compress_loop_one_example :
    (page : List ℕ) × (s' : Machine) × (compress_loop
        (filled_kernel 0)
        stored
        2
        path
        (codes "out.txt")
        (pos 64)
        (codes "abcd")
        (pos 0)
        (pos 5)
        (pos 0)
        (pos 0)
        two_outputs
      ≡ done (pos 5) s')
    × (s'.disk
        ≡ update two_outputs.disk
            (codes "out.txt")
            (some (print_size (codes "abcd") (pos 5) ++ take 8 (text ++ drop 5 page))))
    × (length page ≡ page_size)
unfolding print_size format_d
compress_loop_one_example =
    compress_loop_one (filled_kernel 0) (filled_volume 0) (filled_healthy 0) stored restored
      (λ input. input) stored-IsLossless path (codes "out.txt") text
      (bytes_ne path (codes "out.txt") refl) (omega arith) (omega arith) 0 (pos 64) (codes "abcd")
      two_outputs refl refl (omega arith) (omega arith) (rw (decimal_small 5 (omega arith)) refl)

xclone2_older_oopses_example :
    (s' : Machine) × (xclone2_older
        (filled_kernel 0)
        stored
        restored
        platform
        2
        (some (record { file = some (codes "/none"); flags = 0 }))
        machine
      ≡ oops s')
xclone2_older_oopses_example =
    xclone2_older_oopses (filled_kernel 0) stored restored platform 2 0 2 (codes "/none") machine
      refl
