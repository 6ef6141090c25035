-- ===== src/Encrypt.antt =====
-- `processencryption` of sys_xclone2.c (`-me`): encrypt a file chunk by chunk into the trash
-- folder, then delete it. The loop is also the second half of `process_enc_comp`.
pub mod Frame
pub mod KeyFreed
pub mod Ends
pub mod Seal
pub mod Chunk
pub mod Laws
pub mod Calls
pub mod Rounds
pub mod Loop
pub mod Result
pub mod Whole
pub mod Recovery
use asynchronous_file_system.Common.{
  ℕ, zero, suc, ◌+◌, ◌-◌, ◌*◌, ◌%◌, ◌^◌, ◌≤◌, ℤ, pos, minus, ◌-ℤ◌, is_negative, ltb_ℤ, add_int,
  to_int, to_u64, leb, Bool, true, false, Option, none, some, List, [], ◌++◌, length, drop, codes,
  c_string, if◌then◌else◌,
}
use asynchronous_file_system.Kernel.{Kernel, Buffer}
use asynchronous_file_system.Kernel.Constants.{
  page_size, path_max, o_rdonly, o_wronly_creat, mode_0644, eperm, enomem,
}
use asynchronous_file_system.Kernel.Monad.{
  Pointer, ptr_err, M, ◌>>=◌, ◌>>◌, out_of_fuel, pure, call, run, ask, deref, fits, choose, if_null,
  if_bad,
}
use asynchronous_file_system.FileIo.{file_open, file_close, delete_input, file_write}
use asynchronous_file_system.TrashName.{stamp}
use asynchronous_file_system.Cipher.{BlockCipher, clone_encryption}

-- How the loop ends: by its test, or by a `return` from its body.
pub data LoopEnd : Type 0 where
  ended : LoopEnd
  returned : ℤ → LoopEnd

-- if (fsize > PAGE_SIZE - 16) { temp_size = PAGE_SIZE - 16; … } else { temp_size = fsize; … }
unfoldable pub next_size : ℤ → ℤ
next_size fsize = if ltb_ℤ (pos (page_size - 16)) fsize then pos (page_size - 16) else fsize

unfoldable pub size_left : ℤ → ℤ
unfolding next_size ◌-ℤ◌
size_left fsize =
    if ltb_ℤ (pos (page_size - 16)) fsize then fsize -ℤ pos (page_size - 16) else pos 0

module _ (K : Kernel) where
  open K use {State, File}

  -- `strlen(key)` and the bytes in front of the NUL, read at the address `key`.
  unfoldable pub key_string : ℕ → M State (List ℕ)
  key_string key = do found ← ask (K.load key); bytes ← deref found; pure (c_string bytes)

  -- `vfs_read` into a whole page at the position `curr_read_size`, between two `set_fs`.
  unfoldable pub read_chunk : File → List ℕ → ℤ → ℤ → M State (ℤ × List ℕ)
  read_chunk f_read buff3 temp_size curr_read_size = do
    oldfs1 ← ask K.get_fs
    run (K.set_fs K.kernel_ds)
    r ← call (K.vfs_read f_read buff3 (to_u64 temp_size) (to_u64 curr_read_size))
    run (K.set_fs oldfs1)
    pure (to_int r.count, r.bytes)

  -- The name in an allocation of PATH_MAX bytes that is not cleared: `strcat` appends behind the
  -- first NUL that it finds there.
  unfoldable pub name_in_page : File → Buffer → Buffer → ℕ → List ℕ → M State (List ℕ)
  name_in_page f_read filename room get_time suffix = do
    let root = codes "/usr" ++ c_string (drop 4 room.bytes)
    found ← ask (K.d_path f_read (some filename) path_max)
    path ← deref found
    let name =
        stamp root (K.time_to_tm get_time) get_time ++ (K.strreplace path b'/' b'[' ++ suffix)
    fits (leb (length name + 1) path_max)
    pure name

  module _ (C : BlockCipher State) where
    -- The `while (fsize > 0)` loop, a round for each unit of fuel.
    unfoldable pub encrypt_loop : ℕ → File → File → ℕ → ℤ → ℤ → ℤ → M State LoopEnd
    encrypt_loop zero f_read f_write key fsize curr_read_size curr_write_size = out_of_fuel
    encrypt_loop (suc fuel) f_read f_write key fsize curr_read_size curr_write_size =
        choose (ltb_ℤ (pos 0) fsize)
          (do
            page3 ← call (K.kmalloc page_size)
            page4 ← call (K.kmalloc page_size)
            buff3 ← deref page3
            buff4 ← deref page4
            (bytes1, text) ← read_chunk f_read buff3.bytes (next_size fsize) curr_read_size
            key_text ← key_string key
            e ← clone_encryption C key_text buff4.bytes text (to_u64 bytes1)
            choose (is_negative e.ret)
                (do
                  run (K.kfree buff3.addr)
                  run (K.kfree buff4.addr)
                  run (K.kfree key)
                  pure (returned e.ret))
                (do
                  bytes2 ←
                      file_write K f_write (to_u64 curr_write_size) e.dst
                        (to_u64 (to_int (pos e.dst_len)))
                  run (K.kfree buff3.addr)
                  run (K.kfree buff4.addr)
                  encrypt_loop fuel f_read f_write key (size_left fsize)
                      (add_int curr_read_size bytes1) (add_int curr_write_size bytes2)))
          (pure ended)

    -- From the end of the loop. A `return` in the body leaves both files open.
    pub after_encryption : LoopEnd → File → File → Buffer → ℕ → M State ℤ
    after_encryption (returned err) f_read f_write room key = pure err
    after_encryption ended f_read f_write room key = do
      err ← delete_input K f_read
      file_close K f_write
      run (K.kfree room.addr)
      run (K.kfree key)
      pure err

    -- The attribute with the key, then the loop and what follows it.
    unfoldable pub encrypt_into : ℕ → File → File → Buffer → ℕ → ℤ → M State ℤ
    unfolding after_encryption
    encrypt_into fuel f_read f_write room key fsize = do
      key_text ← key_string key
      key_store ← call (K.kmalloc (8 * length key_text))
      key_err ← call (K.vfs_setxattr f_write (codes "user.key_store") key_text)
      end ← encrypt_loop fuel f_read f_write key fsize (pos 0) (pos 0)
      after_encryption end f_read f_write room key

    -- With the three scratch allocations made.
    pub encrypt_named : ℕ → File → Buffer → ℕ → M State ℤ
    encrypt_named fuel f_read filename key = do
      get_time ← ask K.do_gettimeofday
      page ← call (K.kmalloc path_max)
      room ← deref page
      name ← name_in_page f_read filename room get_time (codes ".enc")
      size ← ask (K.i_size_read f_read)
      f_write ← file_open K name o_wronly_creat mode_0644
      if_bad f_write (λ p. pure (pos 0 -ℤ ptr_err p))
          λ f. encrypt_into fuel f_read f room key (to_int (pos size))

    unfoldable pub processencryption : ℕ → Option (List ℕ) → ℕ → M State ℤ
    unfolding encrypt_named
    processencryption fuel name key = do
      fname ← deref name
      f_read ← file_open K fname o_rdonly 0
      if_bad f_read (λ _. pure (minus eperm))
          λ f. do
            replace ← call (K.kmalloc path_max)
            if_null replace (pure (minus enomem)) λ _. do
              filename ← call (K.kmalloc path_max)
              if_null filename (pure (minus enomem)) λ b. do
                path ← call (K.kmalloc path_max)
                if_null path (pure (minus enomem)) λ _. encrypt_named fuel f b key
