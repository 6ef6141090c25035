-- ===== src/Unlink.antt =====
-- `processunlink` of sys_xclone2.c (`-m`): copy a file to the trash folder, then delete it.
pub mod Copy
pub mod Result
pub mod Frame
use asynchronous_file_system.Common.{
  ℕ, zero, suc, ◌+◌, ◌*◌, ◌%◌, ◌^◌, ◌≤◌, ℤ, pos, minus, is_negative, eqb_ℤ, add_int, to_u64, to_u32,
  leb, Bool, true, false, ◌&&◌, Option, none, some, List, [], ◌++◌, length, codes, if◌then◌else◌,
}
use asynchronous_file_system.Kernel.{Kernel, Buffer}
use asynchronous_file_system.Kernel.Constants.{
  page_size, path_max, o_rdonly, o_wronly_creat, mode_0644, eperm, enomem,
}
use asynchronous_file_system.Kernel.Monad.{
  M, ◌>>=◌, ◌>>◌, out_of_fuel, pure, call, run, ask, deref, fits, choose, if_null, if_bad,
}
use asynchronous_file_system.Param.{Param}
use asynchronous_file_system.FileIo.{file_open, file_close, file_read, file_write, delete_input}
use asynchronous_file_system.TrashName.{stamp, name_room}

-- How the copying ends: by the jump to `out4`, or by the test of the loop.
pub data CopyEnd : Type 0 where
  read_error copied : CopyEnd

-- readbytes == writebytes && readbytes == PAGE_SIZE
pub goes_on : ℤ → ℤ → Bool
goes_on readbytes writebytes = eqb_ℤ readbytes writebytes && eqb_ℤ readbytes (pos page_size)

-- if (readbytes == PAGE_SIZE) pagesread++
pub count_page : ℤ → ℤ → ℤ
count_page readbytes pagesread =
    if eqb_ℤ readbytes (pos page_size) then add_int pagesread (pos 1) else pagesread

module _ (K : Kernel) where
  open K use {State, File}

  -- The `do … while` loop, a round for each unit of fuel.
  pub copy_loop : ℕ → File → File → List ℕ → ℤ → ℤ → M State CopyEnd
  copy_loop zero infile trashbinfile tempbuf1 pagesread total = out_of_fuel
  copy_loop (suc fuel) infile trashbinfile tempbuf1 pagesread total = do
    (readbytes, tempbuf1) ←
        file_read K infile (to_u64 pagesread * page_size % 2 ^ 64) tempbuf1 page_size
    choose (is_negative readbytes) (pure read_error) do
      writebytes ← file_write K trashbinfile (to_u64 total) tempbuf1 (to_u32 readbytes)
      let pages = count_page readbytes pagesread
      let written = add_int total writebytes
      choose (goes_on readbytes writebytes)
          (copy_loop fuel infile trashbinfile tempbuf1 pages written) (pure copied)

  -- The labels out1, out2 and out3.
  abbrev pub out1 : Buffer → Buffer → ℤ → M State ℤ
  out1 tempbuf1 tempbuf2 err = do run (K.kfree tempbuf1.addr); run (K.kfree tempbuf2.addr); pure err

  abbrev pub out2 : File → Buffer → Buffer → ℤ → M State ℤ
  out2 infile tempbuf1 tempbuf2 err = do file_close K infile; out1 tempbuf1 tempbuf2 err

  abbrev pub out3 : File → Buffer → Buffer → Buffer → ℤ → M State ℤ
  out3 infile tempbuf1 tempbuf2 name err = do
    file_close K infile
    run (K.kfree tempbuf1.addr)
    run (K.kfree tempbuf2.addr)
    run (K.kfree name.addr)
    pure err

  -- The name in its zeroed allocation; `d_path` is given a null buffer.
  pub trash_name : File → M State (List ℕ)
  trash_name infile = do
    get_time ← ask K.do_gettimeofday
    d_name ← ask (K.d_name infile)
    found ← ask (K.d_path infile none path_max)
    path ← deref found
    let name = stamp (codes "/usr") (K.time_to_tm get_time) get_time ++ K.strreplace path b'/' b'['
    fits (leb (length name + 1) (name_room d_name))
    pure name

  -- From the end of the loop.
  pub after_copy : CopyEnd → File → File → Buffer → Buffer → Buffer → M State ℤ
  after_copy read_error infile trashbinfile tempbuf1 tempbuf2 name = do
    file_close K trashbinfile
    out3 infile tempbuf1 tempbuf2 name (pos 0)
  after_copy copied infile trashbinfile tempbuf1 tempbuf2 name = do
    err ← delete_input K infile
    file_close K trashbinfile
    run (K.kfree name.addr)
    out1 tempbuf1 tempbuf2 err

  -- From the opening of the trash file, with the name in its allocation `room`.
  pub copy_and_delete : ℕ → File → List ℕ → Buffer → Buffer → Buffer → M State ℤ
  copy_and_delete fuel infile name tempbuf1 tempbuf2 room = do
    trashbinfile ← file_open K name o_wronly_creat mode_0644
    if_bad trashbinfile (λ _. out3 infile tempbuf1 tempbuf2 room (minus eperm))
        λ t. do
          end ← copy_loop fuel infile t tempbuf1.bytes (pos 0) (pos 0)
          after_copy end infile t tempbuf1 tempbuf2 room

  -- From the allocation of the name, with the input file open.
  pub move_to_trash : ℕ → File → Buffer → Buffer → M State ℤ
  move_to_trash fuel infile tempbuf1 tempbuf2 = do
    d_name ← ask (K.d_name infile)
    trashbinfolder_filename ← call (K.kmalloc (name_room d_name))
    if_null trashbinfolder_filename (out2 infile tempbuf1 tempbuf2 (pos 0))
        λ room. do name ← trash_name infile; copy_and_delete fuel infile name tempbuf1 tempbuf2 room

  -- From the test of the two buffers.
  pub with_buffers : ℕ → Param → Option Buffer → Option Buffer → M State ℤ
  with_buffers fuel args (some tempbuf1) (some tempbuf2) = do
    fname ← deref args.fname
    infile ← file_open K fname o_rdonly 0
    if_bad infile (λ _. out1 tempbuf1 tempbuf2 (minus eperm))
        λ f. move_to_trash fuel f tempbuf1 tempbuf2
  with_buffers fuel args _ _ = pure (minus enomem)

  unfoldable pub processunlink : ℕ → Param → M State ℤ
  processunlink fuel args = do
    tempbuf1 ← call (K.kmalloc page_size)
    tempbuf2 ← call (K.kmalloc page_size)
    with_buffers fuel args tempbuf1 tempbuf2
