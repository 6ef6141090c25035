-- ===== src/ProcNumber.antt =====
-- proc_file_num.c: a number behind an entry of /proc.
pub mod Entry
use asynchronous_file_system.Common.{
  ℕ, ◌≡◌, refl, ℤ, pos, minus, if◌then◌else◌, List, [], ◌∷◌, ◌++◌, codes, format_d,
}
use asynchronous_file_system.Kernel.Monad.{M, call, pure}
use asynchronous_file_system.Proc.{Proc, file_num_fops}
use asynchronous_file_system.Proc.Seq.{FileOperations, Seq}

-- seq_printf(m, "%d\n", num_files)
unfoldable pub my_proc_show : ℤ → List ℕ
my_proc_show num_files = format_d num_files ++ (10 ∷ [])

-- `kstrtoint_from_user` gives a code and what `temp_val` holds then, also when it fails. The code is
-- printed and dropped. The result is what `write` returns, and the number.
unfoldable pub my_proc_write : (List ℕ → ℕ → ℤ × ℤ) → List ℕ → ℕ → ℤ × ℤ
my_proc_write kstrtoint_from_user buffer count = (pos count, (kstrtoint_from_user buffer count).1)

module _ {S : Type 0} (Q : Seq S ℤ) where
  -- The function prints the number as it is when a task reads.
  unfoldable pub my_proc_open : Q.File → M S (ℤ × Q.File)
  my_proc_open file = call (Q.single_open file (λ num_files. pure (my_proc_show num_files)))

  unfoldable pub my_fops : (List ℕ → ℕ → ℤ × ℤ) → FileOperations Q.File S ℤ
  my_fops kstrtoint_from_user = record {
    open_entry = my_proc_open;
    release = Q.single_release;
    read = Q.seq_read;
    llseek = Q.seq_lseek;
    write = λ file buffer count num_files. pure (my_proc_write kstrtoint_from_user buffer count);
  }

-- The result, and -1 without an entry.
unfoldable pub hello_init : {S : Type 0} → Proc S → S → ℤ × S
hello_init P s =
    let (entry, s') = P.proc_create (codes "max_file_num") file_num_fops s in
    (if entry then pos 0 else minus 1, s')

unfoldable pub hello_exit : {S : Type 0} → Proc S → S → S
hello_exit P s = P.remove_proc_entry (codes "max_file_num") s
