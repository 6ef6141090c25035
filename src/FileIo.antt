-- ===== src/FileIo.antt =====
-- `file_open`, `file_close`, `file_read` and `file_write` of sys_xclone2.c, the deletion that its four
-- operations end with, and `open_file` and `close_file`, which nothing calls there.
pub mod Transfers
pub mod Opens
pub mod Frame
pub mod Ends
use asynchronous_file_system.Common.{ℕ, ℤ, to_int, Option, none, some, List, take}
use asynchronous_file_system.Kernel.{Kernel}
use asynchronous_file_system.Kernel.Monad.{
  Pointer, valid, null, err_ptr, M, ◌>>=◌, ◌>>◌, pure, call, run, ask, fault,
}

-- if (IS_ERR(flip)) return NULL; return flip;
abbrev pub opened : {A : Type 0} → Pointer A → Option A
opened (valid flip) = some flip
opened null = none
opened (err_ptr e) = none

module _ (K : Kernel) where
  open K use {State, File}

  -- The address limit is raised, and the old one is not put back.
  unfoldable pub file_open : List ℕ → ℕ → ℕ → M State (Pointer File)
  file_open path flags rights = do
    oldfs ← ask K.get_fs
    run (K.set_fs K.kernel_ds)
    call (K.filp_open path flags rights)

  unfoldable pub file_close : File → M State (Unit {0})
  file_close file = run (K.filp_close file)

  -- The count as an `int`, and what `buf` holds then. The offset is the function's own copy.
  unfoldable pub file_read : File → ℕ → List ℕ → ℕ → M State (ℤ × List ℕ)
  file_read file offset buf len = do
    oldfs ← ask K.get_fs
    run (K.set_fs K.kernel_ds)
    r ← call (K.vfs_read file buf len offset)
    run (K.set_fs oldfs)
    pure (to_int r.count, r.bytes)

  unfoldable pub file_write : File → ℕ → List ℕ → ℕ → M State ℤ
  file_write file offset buf len = do
    oldfs ← ask K.get_fs
    run (K.set_fs K.kernel_ds)
    w ← call (K.vfs_write file (take len buf) offset)
    run (K.set_fs oldfs)
    pure (to_int w.count)

  -- The directory entry of the input file goes, under the lock of its directory.
  unfoldable pub delete_input : File → M State ℤ
  delete_input infile = do
    file_close infile
    run (K.i_mutex_lock infile)
    err ← call (K.vfs_unlink infile)
    run (K.i_mutex_unlock infile)
    pure err

  -- An error is a null pointer; the mode is an address, `&flip->f_pos` of a null `flip`. The old address
  -- limit is put back.
  unfoldable pub open_file : ℕ → List ℕ → ℕ → M State (Option File)
  open_file offset_of_f_pos filepath acces = do
    old_fs ← ask K.get_fs
    run (K.set_fs K.kernel_ds)
    flip ← call (K.filp_open filepath acces offset_of_f_pos)
    run (K.set_fs old_fs)
    pure (opened flip)

  -- `filp_close` follows a null pointer.
  unfoldable pub close_file : Option File → M State (Unit {0})
  close_file none = fault
  close_file (some flip) = run (K.filp_close flip)
