-- ===== src/Kernel/Contained.antt =====
-- Which calls of the kernel may change which file, when any of them may fail.
use asynchronous_file_system.Common.{ℕ, ◌≡◌, ◌≢◌, Option, List}
use asynchronous_file_system.Kernel.{Kernel}
use asynchronous_file_system.Kernel.Constants.{o_rdonly, o_wronly_creat}
use asynchronous_file_system.Kernel.Monad.{valid}
use asynchronous_file_system.Kernel.Volume.{Volume}

module _ (K : Kernel) (V : Volume K) where
  open K use {State, File}
  open V use {contents, path_of}

  -- A call on a file changes no other file; one that is on no file, a read or an open for reading
  -- changes none.
  pub record IsContained : Type 0 where
    pub kmalloc_keeps : (n : ℕ) (s : State) → contents (K.kmalloc n s).1 ≡ contents s
    pub kfree_keeps : (a : ℕ) (s : State) → contents (K.kfree a s) ≡ contents s
    pub set_fs_keeps : (l : ℕ) (s : State) → contents (K.set_fs l s) ≡ contents s
    pub close_keeps : (f : File) (s : State) → contents (K.filp_close f s) ≡ contents s
    pub lock_keeps : (f : File) (s : State) → contents (K.i_mutex_lock f s) ≡ contents s
    pub unlock_keeps : (f : File) (s : State) → contents (K.i_mutex_unlock f s) ≡ contents s
    pub open_path :
        (p : List ℕ) (flags mode : ℕ) (s : State) (f : File)
        → (K.filp_open p flags mode s).0 ≡ valid f
        → path_of f ≡ p
    pub open_keeps :
        (p : List ℕ) (mode : ℕ) (s : State)
        → contents (K.filp_open p o_rdonly mode s).1 ≡ contents s
    pub creat_other :
        (p : List ℕ) (mode : ℕ) (s : State) (q : List ℕ)
        → q ≢ p
        → contents (K.filp_open p o_wronly_creat mode s).1 q ≡ contents s q
    pub read_keeps :
        (f : File) (b : List ℕ) (n o : ℕ) (s : State)
        → contents (K.vfs_read f b n o s).1 ≡ contents s
    pub write_other :
        (f : File) (bytes : List ℕ) (o : ℕ) (s : State) (q : List ℕ)
        → q ≢ path_of f
        → contents (K.vfs_write f bytes o s).1 q ≡ contents s q
    pub unlink_other :
        (f : File) (s : State) (q : List ℕ)
        → q ≢ path_of f
        → contents (K.vfs_unlink f s).1 q ≡ contents s q
    pub setxattr_keeps :
        (f : File) (name value : List ℕ) (s : State)
        → contents (K.vfs_setxattr f name value s).1 ≡ contents s

  -- The file `q` holds what it held.
  abbrev pub Untouched : List ℕ → Option (List ℕ) → State → Type 0
  Untouched q c s = contents s q ≡ c
