-- ===== src/ProcKey/Entry.antt =====
-- What a task writes to and reads from the entry enc_key_file.
use asynchronous_file_system.Common.{
  ℕ, ◌+◌, ◌≡◌, ◌≢◌, ◌⊎◌, pos, Option, none, some, List, [], ◌∷◌, ◌++◌, length, take, c_string,
}
use asynchronous_file_system.Kernel.{Kernel, Buffer}
use asynchronous_file_system.Kernel.Monad.{M, done}
use asynchronous_file_system.Proc.Seq.{Seq, IsSeq, opened-Shows}
use asynchronous_file_system.ProcKey.{
  my_proc_show, my_proc_open, my_fops, IsSlab, my_proc_show-write_key,
}

module _ (K : Kernel) (Q : Seq K.State ℕ) (Shows : Q.File → (ℕ → M K.State (List ℕ)) → Type 0)
    (L : IsSeq Q Shows) (kzalloc : ℕ → K.State → Option Buffer × K.State)
    (copy_from_user : List ℕ → ℕ → K.State → Option (List ℕ)) (A : IsSlab K kzalloc) where
  -- Where nothing fails, a task that opens the entry and writes a key without a NUL, while `enc_key` is
  -- null or live, reads the key back through the same file, with a newline and up to the size that it
  -- asks for; the write takes all of its input.
  pub my_fops-read_back_key :
      (file file' : Q.File) (bytes : List ℕ) (size enc_key : ℕ) (s s1 : K.State) (t : Buffer)
      → (my_fops K Q kzalloc copy_from_user).open_entry file s ≡ done (pos 0, file') s1
      → (kzalloc (length bytes + 1) s1).0 ≡ some t
      → copy_from_user bytes (length bytes) (kzalloc (length bytes + 1) s1).1 ≡ some bytes
      → c_string bytes ≡ bytes
      → (K.load enc_key s1 ≢ none) ⊎ (enc_key ≡ 0)
      → let shown = take size (bytes ++ (10 ∷ [])) in
        (s2 : K.State) × (file'' : Q.File) × ((my_fops K Q kzalloc copy_from_user).write file' bytes
            (length bytes)
            enc_key
            s1
          ≡ done (pos (length bytes), t.addr) s2)
        × ((my_fops K Q kzalloc copy_from_user).read file' size 0 t.addr s2
            ≡ done (pos (length shown), shown, file'') s2)
  unfolding my_fops my_proc_open
  my_fops-read_back_key file file' bytes size enc_key s s1 t opens granted copied text live =
      let (s2, writes, prints) =
        my_proc_show-write_key K kzalloc (copy_from_user bytes) A bytes enc_key s1 t granted copied
          text live in
      let (file'', gives) =
        L.reads file' (my_proc_show K) size t.addr _ s2 s2
          (opened-Shows Q Shows L file file' (my_proc_show K) s s1 opens) prints in
      (s2, file'', writes, gives)
