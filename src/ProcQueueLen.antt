-- ===== src/ProcQueueLen.antt =====
-- proc_queue_len.c: the text of proc_file_num.c, over another variable and entry.
use asynchronous_file_system.Common.{
  ℕ, ℤ, pos, minus, if◌then◌else◌, List, [], ◌∷◌, ◌++◌, codes, format_d,
}
use asynchronous_file_system.Kernel.Monad.{M, call, pure}
use asynchronous_file_system.Proc.{Proc, queue_len_fops}
use asynchronous_file_system.Proc.Seq.{FileOperations, Seq}

-- seq_printf(m, "%d\n", queue_len)
unfoldable pub my_proc_show : ℤ → List ℕ
my_proc_show queue_len = format_d queue_len ++ (10 ∷ [])

-- What `write` returns, and the number that `kstrtoint_from_user` left, also when it failed.
unfoldable pub my_proc_write : (List ℕ → ℕ → ℤ × ℤ) → List ℕ → ℕ → ℤ × ℤ
my_proc_write kstrtoint_from_user buffer count = (pos count, (kstrtoint_from_user buffer count).1)

module _ {S : Type 0} (Q : Seq S ℤ) where
  -- The function prints the number as it is when a task reads.
  unfoldable pub my_proc_open : Q.File → M S (ℤ × Q.File)
  my_proc_open file = call (Q.single_open file (λ queue_len. pure (my_proc_show queue_len)))

  unfoldable pub my_fops : (List ℕ → ℕ → ℤ × ℤ) → FileOperations Q.File S ℤ
  my_fops kstrtoint_from_user = record {
    open_entry = my_proc_open;
    release = Q.single_release;
    read = Q.seq_read;
    llseek = Q.seq_lseek;
    write = λ file buffer count queue_len. pure (my_proc_write kstrtoint_from_user buffer count);
  }

-- The result, and -1 without an entry.
unfoldable pub hello_init : {S : Type 0} → Proc S → S → ℤ × S
hello_init P s =
    let (entry, s') = P.proc_create (codes "max_queue_len") queue_len_fops s in
    (if entry then pos 0 else minus 1, s')

unfoldable pub hello_exit : {S : Type 0} → Proc S → S → S
hello_exit P s = P.remove_proc_entry (codes "max_queue_len") s
