-- ===== src/Older.antt =====
-- sys_xclone2_myorg.c, the module from which the compression of sys_xclone2.c comes: it compresses a
-- file into out.txt and decompresses that into out.txt.cmp.
pub mod Packed
pub mod RoundTrip
pub mod Missing
use asynchronous_file_system.Common.{
  ℕ, zero, suc, ◌+◌, ℤ, pos, minus, is_negative, ltb_ℤ, add_int, to_int, to_u32, to_u64, leb,
  Option, none, some, List, ◌++◌, length, take, drop, codes,
}
use asynchronous_file_system.Kernel.{Kernel}
use asynchronous_file_system.Kernel.Constants.{page_size, o_rdonly, o_wronly_creat, einval}
use asynchronous_file_system.Kernel.Monad.{
  Pointer, valid, null, err_ptr, M, ◌>>=◌, ◌>>◌, out_of_fuel, pure, call, run, ask, fault, deref,
  fits, choose, if_null, if_bad,
}
use asynchronous_file_system.FileIo.{opened}
use asynchronous_file_system.Encrypt.{size_left}
use asynchronous_file_system.Modules.{Call, xclone2_myorg, set_sysptr, clear_sysptr}
use asynchronous_file_system.Compress.{Compressor, Compressed, compress_buffer, compress_loop}

-- crypto_comp_decompress, with the handles of `Z`: the input, and how many bytes the output may take;
-- the result, the output and `*out_len`.
pub record Decompressor {S : Type 0} (Z : Compressor S) : Type 0 where
  pub comp_decompress : Z.Tfm → List ℕ → ℕ → S → (ℤ × List ℕ × ℕ) × S

-- `fname` is none for a null pointer; the flags are not read.
pub record MyArgs : Type 0 where
  pub file : Option (List ℕ)
  pub flags : ℕ

module _ {S : Type 0} (Z : Compressor S) where
  -- The text of `compress_buffer` in sys_xclone2.c, but for an unused variable.
  unfoldable pub compress_buffer_older : List ℕ → ℤ → List ℕ → ℤ → M S Compressed
  compress_buffer_older = compress_buffer Z

  -- The handle is not tested.
  unfoldable pub decompress_buffer : Decompressor Z → List ℕ → ℤ → List ℕ → ℤ → M S Compressed
  decompress_buffer Y in_buf in_len out_buf out_len = do
    tfm ← call Z.alloc_comp
    if_bad tfm (λ _. fault)
        λ t. do
          fits (leb (to_u32 in_len) (length in_buf))
          (err, out, written) ←
              call (Y.comp_decompress t (take (to_u32 in_len) in_buf) (to_u32 out_len))
          fits (leb (length out) (length out_buf))
          let filled = out ++ drop (length out) out_buf
          choose (is_negative err) (pure (record { ret = minus 1; out_buf = filled }))
              (pure (record { ret = to_int (pos written); out_buf = filled }))

-- What the compiler and the kernel give besides: an `int` at the bytes of a local variable,
-- `&flip->f_pos` of a null `flip`, and `kstrtoint(ps, 10, &psize)` from the text and the old number to
-- the new one.
pub record Platform : Type 0 where
  pub int_at : List ℕ → ℤ
  pub offset_of_f_pos : ℕ
  pub kstrtoint : List ℕ → ℤ → ℤ

module _ (K : Kernel) (Z : Compressor K.State) (Y : Decompressor Z) (P : Platform) where
  open K use {State, File}

  -- The loop is that of sys_xclone2.c; `out_len[0]` is not set.
  unfoldable pub compress_file_older : ℕ → File → File → M State ℤ
  compress_file_older fuel f_read f_write = do
    tei ← ask (K.garbage 4)
    out_len ← ask (K.garbage 4)
    size ← ask (K.i_size_read f_read)
    compress_loop K Z fuel f_read f_write (P.int_at out_len) tei (pos 0) (to_int (pos size)) (pos 0)
        (pos 0)

  -- One chunk's size and its bytes: `ps`, `psize` and `buff3` after the two reads, and the count of
  -- the second.
  unfoldable pub read_sized : File → List ℕ → ℤ → List ℕ → ℤ → M State (List ℕ × ℤ × List ℕ × ℤ)
  read_sized f_read ps psize buff3 curr_read_size = do
    oldfs1 ← ask K.get_fs
    run (K.set_fs K.kernel_ds)
    r1 ← call (K.vfs_read f_read ps 4 (to_u64 curr_read_size))
    let size = P.kstrtoint r1.bytes psize
    r2 ← call (K.vfs_read f_read buff3 (to_u64 size) r1.f_pos)
    fits (leb (length r2.bytes) (length buff3))
    run (K.set_fs oldfs1)
    pure (r1.bytes, size, r2.bytes, to_int r2.count)

  -- `vfs_write` of `d_len` bytes of `buff4`, between two `set_fs`.
  unfoldable pub write_plain : File → List ℕ → ℤ → ℤ → M State ℤ
  write_plain f_write buff4 d_len curr_write_size = do
    oldfs2 ← ask K.get_fs
    run (K.set_fs K.kernel_ds)
    w ← call (K.vfs_write f_write (take (to_u64 d_len) buff4) (to_u64 curr_write_size))
    run (K.set_fs oldfs2)
    pure (to_int w.count)

  -- The `while (fsize > 0)` loop. `out_len` has one element, and `out_len[1]` is what the stack holds
  -- behind it. The four bytes of the size are not added to `curr_read_size`.
  unfoldable pub decompress_loop : ℕ → File → File → ℤ → List ℕ → ℤ → ℤ → ℤ → ℤ → M State ℤ
  decompress_loop zero f_read f_write out_len ps psize fsize curr_read_size curr_write_size =
      out_of_fuel
  decompress_loop (suc fuel) f_read f_write out_len ps psize fsize curr_read_size curr_write_size =
      choose (ltb_ℤ (pos 0) fsize)
        (do
          page3 ← call (K.kmalloc page_size)
          page4 ← call (K.kmalloc page_size)
          buff3 ← deref page3
          buff4 ← deref page4
          (text, size, packed, bytes1) ← read_sized f_read ps psize buff3.bytes curr_read_size
          d ← decompress_buffer Z Y packed size buff4.bytes out_len
          choose (is_negative d.ret)
              (do run (K.kfree buff3.addr); run (K.kfree buff4.addr); pure d.ret)
              (do
                bytes2 ← write_plain f_write d.out_buf d.ret curr_write_size
                run (K.kfree buff3.addr)
                run (K.kfree buff4.addr)
                decompress_loop fuel f_read f_write out_len text size (size_left fsize)
                    (add_int curr_read_size bytes1) (add_int curr_write_size bytes2)))
        (pure (pos 0))

  unfoldable pub decompress_file : ℕ → File → File → M State ℤ
  decompress_file fuel f_read f_write = do
    ps ← ask (K.garbage 4)
    psize ← ask (K.garbage 4)
    out_len ← ask (K.garbage 8)
    size ← ask (K.i_size_read f_read)
    decompress_loop fuel f_read f_write (P.int_at (drop 4 out_len)) ps (P.int_at psize)
        (to_int (pos size)) (pos 0) (pos 0)

  -- An error is a null pointer; the mode is an address. The old address limit is put back.
  unfoldable pub open_file : List ℕ → ℕ → M State (Option File)
  open_file filepath acces = do
    old_fs ← ask K.get_fs
    run (K.set_fs K.kernel_ds)
    flip ← call (K.filp_open filepath acces P.offset_of_f_pos)
    run (K.set_fs old_fs)
    pure (opened flip)

  -- `filp_close` follows a null pointer.
  unfoldable pub close_file : Option File → M State (Unit {0})
  close_file none = fault
  close_file (some flip) = run (K.filp_close flip)

  -- With the argument at hand. No file is tested: a null pointer is followed before the return, by a
  -- first use or by `close_file`. The oops stands in front of the call that is given the pointer.
  unfoldable pub through_out_txt : ℕ → List ℕ → M State ℤ
  through_out_txt fuel file = do
    in_opened ← open_file file o_rdonly
    out_opened ← open_file (codes "out.txt") o_wronly_creat
    out_opened1 ← open_file (codes "out.txt.cmp") o_wronly_creat
    in_file ← deref in_opened
    out_file ← deref out_opened
    err1 ← compress_file_older fuel in_file out_file
    close_file (some in_file)
    close_file (some out_file)
    out_opened2 ← open_file (codes "out.txt") o_rdonly
    out_file2 ← deref out_opened2
    out_file1 ← deref out_opened1
    err ← decompress_file fuel out_file2 out_file1
    close_file (some out_file2)
    close_file (some out_file1)
    pure err

  unfoldable pub xclone2_older : ℕ → Option MyArgs → M State ℤ
  xclone2_older fuel none = pure (minus einval)
  xclone2_older fuel (some args) =
      if_null (args.file) (pure (minus einval)) λ file. through_out_txt fuel file

-- The result, and the pointer `sysptr`.
unfoldable pub init_sys_xclone2 : Option Call → ℤ × Option Call
init_sys_xclone2 sysptr = (pos 0, set_sysptr xclone2_myorg sysptr)

unfoldable pub exit_sys_xclone2 : Option Call → Option Call
exit_sys_xclone2 sysptr = clear_sysptr sysptr
