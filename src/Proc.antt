-- ===== src/Proc.antt =====
-- What proc_key.c, proc_file_num.c and proc_queue_len.c call to have an entry in /proc, and what they
-- rely on.
pub mod Seq
use asynchronous_file_system.Common.{◌≡◌, ◌≢◌, Bool, true, false, Option, none, some, List, ℕ}

-- Whose `my_fops` an entry has.
pub data Fops : Type 0 where
  key_fops : Fops
  file_num_fops : Fops
  queue_len_fops : Fops

-- The calls, on the kernel's state. `proc_create` gives an entry or not.
pub record Proc (S : Type 0) : Type 0 where
  pub proc_create : List ℕ → Fops → S → Bool × S
  pub remove_proc_entry : List ℕ → S → S

-- An entry that is created has the operations it was created with until it is removed, and nothing else
-- in /proc changes.
pub record IsProc {S : Type 0} (P : Proc S) (entry : List ℕ → S → Option Fops) : Type 0 where
  pub created :
      (n : List ℕ) (f : Fops) (s : S)
      → (P.proc_create n f s).0 ≡ true
      → entry n (P.proc_create n f s).1 ≡ some f
  pub refused :
      (n x : List ℕ) (f : Fops) (s : S)
      → (P.proc_create n f s).0 ≡ false
      → entry x (P.proc_create n f s).1 ≡ entry x s
  pub create_other :
      (n x : List ℕ) (f : Fops) (s : S) → n ≢ x → entry x (P.proc_create n f s).1 ≡ entry x s
  pub removed : (n : List ℕ) (s : S) → entry n (P.remove_proc_entry n s) ≡ none
  pub remove_other : (n x : List ℕ) (s : S) → n ≢ x → entry x (P.remove_proc_entry n s) ≡ entry x s
