-- ===== src/Trashbin.antt =====
-- `create_trashbin`, which sys_xclone2.c and sys_xclone2async.c have in the same words.
pub mod Room
use asynchronous_file_system.Common.{
  ℕ, ◌+◌, ◌*◌, ℤ, pos, ◌-ℤ◌, is_negative, leb, List, ◌++◌, codes, length,
}
use asynchronous_file_system.Kernel.{Kernel}
use asynchronous_file_system.Kernel.Monad.{
  Pointer, ptr_err, M, ◌>>=◌, ◌>>◌, pure, call, run, fits, choose, if_null, if_bad,
}

-- The calls on directories, on the kernel's state.
pub record Directories (S : Type 0) : Type 1 where
  pub Dentry : Type 0
  -- kern_path_create(AT_FDCWD, path, &path, LOOKUP_DIRECTORY): the parent is locked then
  pub kern_path_create : List ℕ → S → Pointer Dentry × S
  -- gives back the reference to the entry, and unlocks the parent
  pub done_path_create : Dentry → S → S
  pub inode_lock_nested : Dentry → S → S
  pub vfs_mkdir : Dentry → S → ℤ × S
  pub inode_unlock : Dentry → S → S

abbrev pub trashbin_path : List ℕ
trashbin_path = codes "/usr" ++ codes "/trashbin"

-- What is asked of `kmalloc`: strlen("/usr") + sizeof(char) * 9.
abbrev pub trashbin_room : ℕ
trashbin_room = length (codes "/usr") + 1 * 9

module _ (K : Kernel) (D : Directories K.State) where
  open K use {State}

  -- The result of `kern_path_create` comes back with its sign turned. The path is freed only if
  -- `vfs_mkdir` fails.
  unfoldable pub create_trashbin : M State ℤ
  create_trashbin = do
    folder ← call (K.kmalloc trashbin_room)
    if_null folder (pure (pos 0)) λ b. do
      fits (leb (length trashbin_path + 1) (length b.bytes))
      tbdentry ← call (D.kern_path_create trashbin_path)
      if_bad tbdentry (λ p. pure (pos 0 -ℤ ptr_err p))
          λ d. do
            run (D.done_path_create d)
            run (D.inode_lock_nested d)
            err ← call (D.vfs_mkdir d)
            run (D.inode_unlock d)
            choose (is_negative err) (do run (K.kfree b.addr); pure err) (pure err)

  -- The text of `create_trashbin` in sys_xclone2async.c is the same.
  unfoldable pub create_trashbin_async : M State ℤ
  create_trashbin_async = create_trashbin
