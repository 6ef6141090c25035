-- ===== src/Compress.antt =====
-- `compress_buffer`, `compress_file` and `processcompress` of sys_xclone2.c (`-mc`): compress a file
-- chunk by chunk into the trash folder, then delete it.
pub mod Frame
pub mod Ends
pub mod Layout
pub mod Sizes
pub mod Packer
pub mod Packed
pub mod Round
pub mod Loop
pub mod Whole
use asynchronous_file_system.Common.{
  ℕ, zero, suc, ◌+◌, ℤ, pos, minus, negsuc, ◌-ℤ◌, is_negative, ltb_ℤ, add_int, to_int, to_u32,
  to_u64, leb, Option, none, some, List, [], ◌∷◌, ◌++◌, length, take, drop, codes, format_d,
}
use asynchronous_file_system.Kernel.{Kernel, Buffer}
use asynchronous_file_system.Kernel.Constants.{
  page_size, path_max, o_rdonly, o_wronly_creat, mode_0644, eperm, enomem,
}
use asynchronous_file_system.Kernel.Monad.{
  Pointer, valid, ptr_err, M, ◌>>=◌, ◌>>◌, out_of_fuel, pure, call, run, ask, fault, deref, fits,
  choose, if_null, if_bad,
}
use asynchronous_file_system.FileIo.{file_open, file_close, delete_input}
use asynchronous_file_system.Encrypt.{
  LoopEnd, ended, returned, next_size, size_left, read_chunk, name_in_page,
}

-- The compression API, on the kernel's state.
pub record Compressor (S : Type 0) : Type 1 where
  pub Tfm : Type 0
  -- crypto_alloc_comp("deflate", 0, 0)
  pub alloc_comp : S → Pointer Tfm × S
  -- the input, and how many bytes the output may take; the result, the output and `*out_len`
  pub comp_compress : Tfm → List ℕ → ℕ → S → (ℤ × List ℕ × ℕ) × S

-- What `compress_buffer` returns, and what `out_buf` holds then.
pub record Compressed : Type 0 where
  pub ret : ℤ
  pub out_buf : List ℕ

-- snprintf(tei, 4, "%d", outlen): at most three characters and a NUL; the rest of `tei` stays.
unfoldable pub print_size : List ℕ → ℤ → List ℕ
print_size tei outlen =
    let text = take 3 (format_d outlen) in text ++ (0 ∷ drop (length text + 1) tei)

module _ {S : Type 0} (Z : Compressor S) where
  -- The handle is not tested.
  unfoldable pub compress_buffer : List ℕ → ℤ → List ℕ → ℤ → M S Compressed
  compress_buffer in_buf in_len out_buf out_len = do
    tfm ← call Z.alloc_comp
    if_bad tfm (λ _. fault)
        λ t. do
          fits (leb (to_u32 in_len) (length in_buf))
          (err, out, written) ←
              call (Z.comp_compress t (take (to_u32 in_len) in_buf) (to_u32 out_len))
          fits (leb (length out) (length out_buf))
          let filled = out ++ drop (length out) out_buf
          choose (is_negative err) (pure (record { ret = minus 1; out_buf = filled }))
              (pure (record { ret = to_int (pos written); out_buf = filled }))

-- `int out_len = kmalloc(sizeof(int), GFP_KERNEL)`: the address is the number.
abbrev pub address_as_int : Option Buffer → ℤ
address_as_int none = pos 0
address_as_int (some b) = to_int (pos b.addr)

module _ (K : Kernel) (Z : Compressor K.State) where
  open K use {State, File}

  -- The size in four bytes, then `sizeof(buff4)`, which is eight, bytes of the output. Only the
  -- second count is kept.
  unfoldable pub write_chunk : File → List ℕ → List ℕ → ℤ → M State ℤ
  write_chunk f_write tei buff4 curr_write_size = do
    oldfs2 ← ask K.get_fs
    run (K.set_fs K.kernel_ds)
    w1 ← call (K.vfs_write f_write (take 4 tei) (to_u64 curr_write_size))
    w2 ← call (K.vfs_write f_write (take 8 buff4) w1.f_pos)
    run (K.set_fs oldfs2)
    pure (to_int w2.count)

  -- The `while (fsize > 0)` loop, a round for each unit of fuel; its last value of `err`.
  unfoldable pub compress_loop : ℕ → File → File → ℤ → List ℕ → ℤ → ℤ → ℤ → ℤ → M State ℤ
  compress_loop zero f_read f_write out_len tei err fsize curr_read_size curr_write_size =
      out_of_fuel
  compress_loop (suc fuel) f_read f_write out_len tei err fsize curr_read_size curr_write_size =
      choose (ltb_ℤ (pos 0) fsize)
        (do
          page3 ← call (K.kmalloc page_size)
          page4 ← call (K.kmalloc page_size)
          buff3 ← deref page3
          buff4 ← deref page4
          (bytes1, text) ← read_chunk K f_read buff3.bytes (next_size fsize) curr_read_size
          c ← compress_buffer Z text bytes1 buff4.bytes out_len
          choose (is_negative c.ret)
              (do run (K.kfree buff3.addr); run (K.kfree buff4.addr); pure c.ret)
              (do
                let sized = print_size tei c.ret
                bytes2 ← write_chunk f_write sized c.out_buf curr_write_size
                run (K.kfree buff3.addr)
                run (K.kfree buff4.addr)
                compress_loop fuel f_read f_write out_len sized c.ret (size_left fsize)
                    (add_int curr_read_size bytes1) (add_int curr_write_size bytes2)))
        (pure err)

  unfoldable pub compress_file : ℕ → File → File → M State ℤ
  compress_file fuel f_read f_write = do
    tei ← ask (K.garbage 4)
    out ← call (K.kmalloc 4)
    size ← ask (K.i_size_read f_read)
    compress_loop fuel f_read f_write (address_as_int out) tei (pos 0) (to_int (pos size)) (pos 0)
        (pos 0)

  -- Whatever the compression returned, the input goes.
  pub compress_into : ℕ → File → File → Buffer → M State ℤ
  compress_into fuel f_read f_write room = do
    zip_err ← compress_file fuel f_read f_write
    err ← delete_input K f_read
    file_close K f_write
    run (K.kfree room.addr)
    pure (pos 0)

  -- With the three scratch allocations made.
  pub compress_named : ℕ → Option (List ℕ) → Buffer → M State ℤ
  compress_named fuel name filename = do
    get_time ← ask K.do_gettimeofday
    page ← call (K.kmalloc path_max)
    room ← deref page
    fname ← deref name
    f_read ← file_open K fname o_rdonly 0
    if_bad f_read (λ _. pure (minus eperm))
        λ f. do
          trash ← name_in_page K f filename room get_time (codes ".cmp")
          f_write ← file_open K trash o_wronly_creat mode_0644
          if_bad f_write (λ p. pure (pos 0 -ℤ ptr_err p)) λ t. compress_into fuel f t room

  unfoldable pub processcompress : ℕ → Option (List ℕ) → M State ℤ
  unfolding compress_named compress_into
  processcompress fuel name = do
    replace ← call (K.kmalloc path_max)
    if_null replace (pure (minus enomem)) λ _. do
      filename ← call (K.kmalloc path_max)
      if_null filename (pure (minus enomem)) λ b. do
        path ← call (K.kmalloc path_max)
        if_null path (pure (minus enomem)) λ _. compress_named fuel name b
