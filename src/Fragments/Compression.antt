-- ===== src/Fragments/Compression.antt =====
-- compression.c: `open_file`, `close_file`, `read_file` and `write_file`. The position of the open file
-- is an argument and a result.
pub mod Offsets
use asynchronous_file_system.Common.{ℕ, ℤ, pos, to_int, minus, Option, none, some, List, take}
use asynchronous_file_system.Kernel.{Kernel}
use asynchronous_file_system.Kernel.Monad.{
  Pointer, valid, null, err_ptr, M, ◌>>=◌, ◌>>◌, pure, call, run, ask,
}

-- if (IS_ERR(flip)) { ferr = errno; return NULL; } return flip; and what `ferr` holds then.
abbrev pub opened_or_ferr : {A : Type 0} → ℤ → Pointer A → Option A × ℤ
opened_or_ferr ferr (valid flip) = (some flip, ferr)
opened_or_ferr ferr null = (none, ferr)
opened_or_ferr ferr (err_ptr e) = (none, minus e)

module _ (K : Kernel) where
  open K use {State, File}

  -- The mode is the address of the position field of a null pointer, `offset_of_f_pos`.
  unfoldable pub open_file : ℕ → List ℕ → ℕ → ℤ → M State (Option File × ℤ)
  open_file offset_of_f_pos filepath acces ferr = do
    old_fs ← ask K.get_fs
    run (K.set_fs K.kernel_ds)
    flip ← call (K.filp_open filepath acces offset_of_f_pos)
    run (K.set_fs old_fs)
    pure (opened_or_ferr ferr flip)

  unfoldable pub close_file : File → M State (Unit {0})
  close_file flip = run (K.filp_close flip)

  -- The offset is not read: the result, the buffer, and the new position.
  unfoldable pub read_file : File → ℕ → List ℕ → ℕ → ℕ → M State (ℤ × List ℕ × ℕ)
  read_file flip len buffer offset f_pos = do
    old_fs ← ask K.get_fs
    run (K.set_fs K.kernel_ds)
    r ← call (K.vfs_read flip buffer len f_pos)
    run (K.set_fs old_fs)
    pure (to_int r.count, r.bytes, r.f_pos)

  -- The position becomes 0, and the write is at the offset, which is the function's own copy.
  unfoldable pub write_file : File → ℕ → List ℕ → ℕ → ℕ → M State (ℤ × ℕ)
  write_file flip len buffer offset f_pos = do
    old_fs ← ask K.get_fs
    run (K.set_fs K.kernel_ds)
    w ← call (K.vfs_write flip (take len buffer) offset)
    run (K.set_fs old_fs)
    pure (to_int w.count, 0)
