-- ===== src/Compress/Ends.antt =====
-- The loop of the compression ends, whatever the kernel's calls give.
use asynchronous_file_system.Common.{ℕ, zero, suc, ◌<◌, ℤ, pos, to_int, Option, List, arith}
use asynchronous_file_system.Kernel.{Kernel, Buffer}
use asynchronous_file_system.Kernel.Finishes.{Finishes, finishes_rules, Finishes-choose}
use asynchronous_file_system.FileIo.Ends.{
  Finishes-file_open, Finishes-file_close, Finishes-delete_input,
}
use asynchronous_file_system.Encrypt.{size_left}
use asynchronous_file_system.Encrypt.Ends.{
  rounds, rounds-to_int, rounds-size_left, Finishes-read_chunk, Finishes-name_in_page,
}
use asynchronous_file_system.Compress.{
  Compressor, compress_buffer, write_chunk, compress_loop, compress_file, compress_into,
  compress_named, processcompress,
}

module _ (K : Kernel) (Z : Compressor K.State) where
  Finishes-compress_buffer :
      (in_buf out_buf : List ℕ) (in_len out_len : ℤ)
      → Finishes (compress_buffer Z in_buf in_len out_buf out_len)
  unfolding compress_buffer
  Finishes-compress_buffer in_buf out_buf in_len out_len = search finishes_rules depth 20

  Finishes-write_chunk :
      (t : K.File) (tei buff4 : List ℕ) (w : ℤ) → Finishes (write_chunk K Z t tei buff4 w)
  unfolding write_chunk
  Finishes-write_chunk t tei buff4 w = search finishes_rules depth 20

  pub Finishes-compress_loop :
      (fuel : ℕ) (f t : K.File) (out_len : ℤ) (tei : List ℕ) (err fsize r w : ℤ)
      → rounds fsize < fuel
      → Finishes (compress_loop K Z fuel f t out_len tei err fsize r w)
  unfolding compress_loop
  Finishes-compress_loop zero f t out_len tei err fsize r w h = absurd (omega arith)
  Finishes-compress_loop (suc fuel) f t out_len tei err fsize r w h =
      Finishes-choose _ _ _
        (λ more.
          let next : (tei' : List ℕ) (err' r' w' : ℤ)
              → Finishes (compress_loop K Z fuel f t out_len tei' err' (size_left fsize) r' w') =
            λ tei' err' r' w'.
              Finishes-compress_loop fuel f t out_len tei' err' (size_left fsize) r' w'
                (rounds-size_left fsize fuel more h) in
          search
            (
              finishes_rules, Finishes-read_chunk, Finishes-compress_buffer, Finishes-write_chunk,
              next,
            )
            depth 24 fits 2000)
        (λ _. search finishes_rules)

  pub Finishes-compress_file :
      (fuel : ℕ) (f t : K.File) → 526_345 < fuel → Finishes (compress_file K Z fuel f t)
  unfolding compress_file
  Finishes-compress_file fuel f t h =
      let loop : (out_len : ℤ) (tei : List ℕ) (size : ℕ)
          → Finishes
              (compress_loop K Z fuel f t out_len tei (pos 0) (to_int (pos size)) (pos 0) (pos 0)) =
        λ out_len tei size.
          Finishes-compress_loop fuel f t out_len tei (pos 0) (to_int (pos size)) (pos 0) (pos 0)
            (omega (arith, rounds-to_int (pos size))) in
      search (finishes_rules, loop) depth 20

  Finishes-compress_into :
      (fuel : ℕ) (f t : K.File) (room : Buffer)
      → 526_345 < fuel
      → Finishes (compress_into K Z fuel f t room)
  unfolding compress_into
  Finishes-compress_into fuel f t room h =
      search (finishes_rules, Finishes-compress_file, Finishes-delete_input, Finishes-file_close)
        depth 20

  Finishes-compress_named :
      (fuel : ℕ) (name : Option (List ℕ)) (b : Buffer)
      → 526_345 < fuel
      → Finishes (compress_named K Z fuel name b)
  unfolding compress_named
  Finishes-compress_named fuel name b h =
      search (finishes_rules, Finishes-file_open, Finishes-name_in_page, Finishes-compress_into)
        depth 20

  pub Finishes-processcompress :
      (fuel : ℕ) (name : Option (List ℕ))
      → 526_345 < fuel
      → Finishes (processcompress K Z fuel name)
  unfolding processcompress
  Finishes-processcompress fuel name h = search (finishes_rules, Finishes-compress_named) depth 20
