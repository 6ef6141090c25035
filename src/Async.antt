-- ===== src/Async.antt =====
-- sys_xclone2async.c: the system call for large files, `xclone2async`, and its own copies of
-- `processunlink` and of the helpers on files. The work queue between the call and its worker threads
-- is Async.Queue.
pub mod Queue
pub mod Moves
pub mod Stuck
pub mod Settles
pub mod Overruns
pub mod Requests
use asynchronous_file_system.Common.{
  ℕ, ℤ, pos, minus, eqb_ℤ, ◌==◌, if◌then◌else◌, Bool, true, false, Option, none, some, List,
  bit_and,
}
use asynchronous_file_system.Param.{Param, clone_prot_mv}
use asynchronous_file_system.Kernel.{Kernel}
use asynchronous_file_system.Kernel.Constants.{einval}
use asynchronous_file_system.Kernel.Monad.{Pointer, M}
use asynchronous_file_system.FileIo.{file_open, file_close, file_read, file_write}
use asynchronous_file_system.Unlink.{processunlink}

-- The module's own copies of the helpers on files, with the text of those in sys_xclone2.c.
unfoldable pub file_open_async : (K : Kernel) → List ℕ → ℕ → ℕ → M K.State (Pointer K.File)
file_open_async K = file_open K

unfoldable pub file_close_async : (K : Kernel) → K.File → M K.State (Unit {0})
file_close_async K = file_close K

unfoldable pub file_read_async : (K : Kernel) → K.File → ℕ → List ℕ → ℕ → M K.State (ℤ × List ℕ)
file_read_async K = file_read K

unfoldable pub file_write_async : (K : Kernel) → K.File → ℕ → List ℕ → ℕ → M K.State ℤ
file_write_async K = file_write K

-- The text of `processunlink` in sys_xclone2.c, but for more printk and white space.
unfoldable pub processunlink_async : (K : Kernel) → ℕ → Param → M K.State ℤ
processunlink_async K = processunlink K

-- What a call does: its result, and the job that it hands to `insert_into_head_job`.
pub record Request : Type 0 where
  pub result : ℤ
  pub job : Option Param

-- if ((current_job->b1 & CLONE_PROT_MV) == CLONE_PROT_MV)
unfoldable pub wants_move : ℕ → Bool
wants_move b1 = bit_and b1 clone_prot_mv == clone_prot_mv

-- `inserted` is what `insert_into_head_job` returns for the job. The flag of the task goes into the
-- caller's structure.
unfoldable pub xclone2async : Option Param → ℕ → (Param → ℤ) → Request
xclone2async none xclone_flag inserted = record { result = minus einval; job = none }
xclone2async (some (current_job)) xclone_flag inserted = elim (current_job.fname) [
  | none ↦ record { result = minus einval; job = none }
  | some fname ↦
      let queued : Param = record current_job { b1 = xclone_flag } in
      if wants_move xclone_flag
      then record { result = inserted queued; job = some queued }
      else record { result = pos 0; job = none }
]
