-- ===== src/Kernel.antt =====
-- The Linux kernel as the modules call it: sys_xclone2.c, sys_xclone2async.c, sys_xclone2_myorg.c.
-- None of it is in the repository, so each call is an operation on an unknown state.
pub mod Constants
pub mod Monad
pub mod Volume
pub mod Triple
pub mod Returns
pub mod Finishes
pub mod Contained
pub mod Memory
use asynchronous_file_system.Common.{ℕ, ℤ, Option, List}
use Monad.{Pointer}

-- An allocation: its address, and the bytes that it held when it was handed out.
pub record Buffer : Type 0 where
  pub addr : ℕ
  pub bytes : List ℕ

-- The fields of `struct tm` that the modules read.
pub record Tm : Type 0 where
  pub tm_year : ℤ
  pub tm_mon : ℤ
  pub tm_mday : ℤ

-- What `vfs_read` and `vfs_write` give: the count or a negative error, and the file position.
-- After a read, `bytes` is what the caller's buffer holds.
pub record Transfer : Type 0 where
  pub count : ℤ
  pub bytes : List ℕ
  pub f_pos : ℕ

pub record Kernel : Type 1 where
  pub State : Type 0
  pub File : Type 0
  -- slab allocator; address 0 is the null pointer
  pub kmalloc : ℕ → State → Option Buffer × State
  pub kfree : ℕ → State → State
  -- what an allocation holds: none at an address where none lives
  pub load : ℕ → State → Option (List ℕ)
  pub store : ℕ → List ℕ → State → State
  -- address limit of the running task
  pub kernel_ds : ℕ
  pub get_fs : State → ℕ
  pub set_fs : ℕ → State → State
  -- path, flags, mode
  pub filp_open : List ℕ → ℕ → ℕ → State → Pointer File × State
  pub filp_close : File → State → State
  -- file, the caller's buffer, how many bytes, offset
  pub vfs_read : File → List ℕ → ℕ → ℕ → State → Transfer × State
  -- file, the bytes to write, offset
  pub vfs_write : File → List ℕ → ℕ → State → Transfer × State
  pub i_size_read : File → State → ℕ
  pub d_name : File → State → List ℕ
  -- file, the buffer (none for a null pointer), its size; none if no string can be read at the result
  pub d_path : File → Option Buffer → ℕ → State → Option (List ℕ)
  pub strreplace : List ℕ → ℕ → ℕ → List ℕ
  -- the directory of an open file, and its entry there
  pub i_mutex_lock : File → State → State
  pub i_mutex_unlock : File → State → State
  pub vfs_unlink : File → State → ℤ × State
  -- file, attribute, value
  pub vfs_setxattr : File → List ℕ → List ℕ → State → ℤ × State
  -- what a local array of so many bytes holds before it is written
  pub garbage : ℕ → State → List ℕ
  -- tsk->xclone_flag of the running task
  pub xclone_flag : State → ℕ
  -- seconds since the epoch, and their calendar date
  pub do_gettimeofday : State → ℕ
  pub time_to_tm : ℕ → Tm
