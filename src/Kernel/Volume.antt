-- ===== src/Kernel/Volume.antt =====
-- What the modules rely on in the kernel: a volume of named files, and calls that succeed on it.
use asynchronous_file_system.Common.{
  ℕ, ◌+◌, ◌≡◌, pos, Option, none, some, List, [], ◌++◌, length, take, drop, splice, update,
}
use asynchronous_file_system.Kernel.{Buffer, Kernel}
use asynchronous_file_system.Kernel.Monad.{valid}
use asynchronous_file_system.Kernel.Constants.{o_rdonly, o_wronly_creat}

abbrev pub or_empty : Option (List ℕ) → List ℕ
or_empty none = []
or_empty (some d) = d

-- The bytes of the files by name, and the name that a file was opened by.
pub record Volume (K : Kernel) : Type 0 where
  pub contents : K.State → List ℕ → Option (List ℕ)
  pub path_of : K.File → List ℕ

module _ (K : Kernel) (V : Volume K) where
  open K use {State, File}
  open V use {contents, path_of}

  -- The bytes that a read of `n` bytes at offset `o` finds.
  abbrev pub chunk : ℕ → ℕ → List ℕ → List ℕ
  chunk n o d = take n (drop o d)

  -- Memory does not run out, and no call on a file fails: read(2), write(2), open(2) and unlink(2)
  -- on a regular file, with a name that is absolute and has no other links.
  pub record IsHealthy : Type 0 where
    pub kmalloc_some : (n : ℕ) (s : State) → (b : Buffer) × ((K.kmalloc n s).0 ≡ some b)
    pub kmalloc_keeps : (n : ℕ) (s : State) → contents (K.kmalloc n s).1 ≡ contents s
    pub kfree_keeps : (a : ℕ) (s : State) → contents (K.kfree a s) ≡ contents s
    pub set_fs_keeps : (l : ℕ) (s : State) → contents (K.set_fs l s) ≡ contents s
    pub close_keeps : (f : File) (s : State) → contents (K.filp_close f s) ≡ contents s
    pub lock_keeps : (f : File) (s : State) → contents (K.i_mutex_lock f s) ≡ contents s
    pub unlock_keeps : (f : File) (s : State) → contents (K.i_mutex_unlock f s) ≡ contents s
    pub open_valid :
        (p : List ℕ) (mode : ℕ) (s : State) (d : List ℕ)
        → contents s p ≡ some d
        → (f : File) × ((K.filp_open p o_rdonly mode s).0 ≡ valid f) × (path_of f ≡ p)
    pub open_keeps :
        (p : List ℕ) (mode : ℕ) (s : State)
        → contents (K.filp_open p o_rdonly mode s).1 ≡ contents s
    pub creat_valid :
        (p : List ℕ) (mode : ℕ) (s : State)
        → (f : File) × ((K.filp_open p o_wronly_creat mode s).0 ≡ valid f) × (path_of f ≡ p)
    pub creat_contents :
        (p : List ℕ) (mode : ℕ) (s : State)
        → contents (K.filp_open p o_wronly_creat mode s).1
          ≡ update (contents s) p (some (or_empty (contents s p)))
    pub read_result :
        (f : File) (b : List ℕ) (n o : ℕ) (s : State) (d : List ℕ)
        → contents s (path_of f) ≡ some d
        → (K.vfs_read f b n o s).0 ≡ record {
          count = pos (length (chunk n o d));
          bytes = chunk n o d ++ drop (length (chunk n o d)) b;
          f_pos = o + length (chunk n o d);
        }
    pub read_keeps :
        (f : File) (b : List ℕ) (n o : ℕ) (s : State)
        → contents (K.vfs_read f b n o s).1 ≡ contents s
    pub write_result :
        (f : File) (bytes : List ℕ) (o : ℕ) (s : State) (d : List ℕ)
        → contents s (path_of f) ≡ some d
        → (K.vfs_write f bytes o s).0
          ≡ record { count = pos (length bytes); bytes = bytes; f_pos = o + length bytes }
    pub write_contents :
        (f : File) (bytes : List ℕ) (o : ℕ) (s : State) (d : List ℕ)
        → contents s (path_of f) ≡ some d
        → contents (K.vfs_write f bytes o s).1
          ≡ update (contents s) (path_of f) (some (splice d o bytes))
    pub unlink_result :
        (f : File) (s : State) (d : List ℕ)
        → contents s (path_of f) ≡ some d
        → (K.vfs_unlink f s).0 ≡ pos 0
    pub unlink_contents :
        (f : File) (s : State)
        → contents (K.vfs_unlink f s).1 ≡ update (contents s) (path_of f) none
    pub size :
        (f : File) (s : State) (d : List ℕ)
        → contents s (path_of f) ≡ some d
        → K.i_size_read f s ≡ length d
