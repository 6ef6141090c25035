-- ===== src/ProcNumber/Entry.antt =====
-- What a task writes to and reads from the entry max_file_num.
use asynchronous_file_system.Common.{
  ℕ, ◌≡◌, refl, ℤ, pos, List, [], ◌∷◌, ◌++◌, length, take, format_d,
}
use asynchronous_file_system.Kernel.Monad.{M, done, pure}
use asynchronous_file_system.Proc.Seq.{Seq, IsSeq, opened-Shows}
use asynchronous_file_system.ProcNumber.{my_proc_show, my_proc_write, my_proc_open, my_fops}

module _ {S : Type 0} (Q : Seq S ℤ) (Shows : Q.File → (ℤ → M S (List ℕ)) → Type 0)
    (L : IsSeq Q Shows) where
  -- Where nothing fails, a task that opens the entry and writes a number reads it back through the same
  -- file, in decimal and with a newline, up to the size that it asks for; the write takes all of its
  -- input. If the text is refused, the same holds of what the refused conversion left.
  pub my_fops-read_back :
      (kstrtoint_from_user : List ℕ → ℕ → ℤ × ℤ) (file file' : Q.File) (buffer : List ℕ)
      (count size : ℕ) (code v before : ℤ) (s s' : S)
      → (my_fops Q kstrtoint_from_user).open_entry file s ≡ done (pos 0, file') s'
      → kstrtoint_from_user buffer count ≡ (code, v)
      → let shown = take size (format_d v ++ (10 ∷ [])) in
        (file'' : Q.File) × ((my_fops Q kstrtoint_from_user).write file' buffer count before s'
          ≡ done (pos count, v) s')
        × ((my_fops Q kstrtoint_from_user).read file' size 0 v s'
            ≡ done (pos (length shown), shown, file'') s')
  unfolding my_fops my_proc_open my_proc_write my_proc_show pure
  my_fops-read_back kstrtoint_from_user file file' buffer count size code v before s s' opens
        parsed =
      let (file'', gives) =
        L.reads file' _ size v _ s' s' (opened-Shows Q Shows L file file' _ s s' opens) refl in
      (file'', rw parsed refl, gives)
