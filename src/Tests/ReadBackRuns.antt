-- ===== src/Tests/ReadBackRuns.antt =====
-- Writing and reading through entries of /proc, with files that keep the function that prints.
use asynchronous_file_system.Common.{
  ℕ, ◌≡◌, refl, inl, ℤ, pos, Option, none, some, List, [], ◌∷◌, ◌++◌, codes, length, take, drop,
  replicate, format_d, decimal,
}
use asynchronous_file_system.Kernel.Monad.{M, done, oops, bind, pure, call}
use asynchronous_file_system.Kernel.Memory.{Machine, memory_kernel}
use asynchronous_file_system.Proc.Seq.{Seq, IsSeq}
use asynchronous_file_system.ProcKey as Key
use asynchronous_file_system.ProcKey.Entry.{my_fops-read_back_key}
use asynchronous_file_system.ProcNumber as FileNum
use asynchronous_file_system.ProcNumber.Entry.{my_fops-read_back}
use asynchronous_file_system.Tests.Machines.{machine}
use asynchronous_file_system.Tests.ProcRuns.{kzalloc, slab}

abbrev OpenFile : Type 0 → Type 0
OpenFile G = Option (G → M Machine (List ℕ))

abbrev read_text : (G : Type 0) → OpenFile G → ℕ → ℕ → G → M Machine (ℤ × List ℕ × OpenFile G)
read_text G none size at g s = oops s
read_text G (some show) size at g s = bind (show g s) λ text s'.
    done (pos (length (take size (drop at text))), take size (drop at text), some show) s'

abbrev seq_file : (G : Type 0) → Seq Machine G
seq_file G = record {
  File = OpenFile G;
  single_open = λ f show s. ((pos 0, some show), s);
  single_release = λ f s. done (pos 0) s;
  seq_read = read_text G;
  seq_lseek = λ f offset whence s. done offset s;
}

abbrev Shows : (G : Type 0) → OpenFile G → (G → M Machine (List ℕ)) → Type 0
Shows G f show = f ≡ some show

read-Shows :
    (G : Type 0) (f : OpenFile G) (show : G → M Machine (List ℕ)) (size : ℕ) (g : G) (text : List ℕ)
    (s s' : Machine)
    → Shows G f show
    → show g s ≡ done text s'
    → (f' : OpenFile G) × (read_text G f size 0 g s
        ≡ done (pos (length (take size text)), take size text, f') s')
read-Shows G f show size g text s s' is prints = (some show, rw (is, prints) refl)

seq_file-IsSeq : (G : Type 0) → IsSeq (seq_file G) (Shows G)
seq_file-IsSeq G = record { opened = λ f show s e. refl; reads = read-Shows G }

abbrev number_file : OpenFile ℤ
number_file = some (λ v. pure (FileNum.my_proc_show v))

-- The task writes "42" and asks for two bytes.
my_fops-read_back_example :
    (file : OpenFile ℤ) × ((FileNum.my_fops (seq_file ℤ) (λ b n. (pos 0, pos 42))).write number_file
        (codes "42")
        2
        (pos 0)
        machine
      ≡ done (pos 2, pos 42) machine)
    × ((FileNum.my_fops (seq_file ℤ) (λ b n. (pos 0, pos 42))).read number_file 2 0 (pos 42) machine
        ≡ done (pos 2, codes "42", file) machine)
unfolding FileNum.my_fops FileNum.my_proc_open call format_d decimal
my_fops-read_back_example =
    my_fops-read_back (seq_file ℤ) (Shows ℤ) (seq_file-IsSeq ℤ) (λ b n. (pos 0, pos 42)) none
      number_file (codes "42") 2 2 (pos 0) (pos 42) (pos 0) machine machine refl refl

abbrev key_file : OpenFile ℕ
key_file = some (Key.my_proc_show memory_kernel)

abbrev copied : List ℕ → ℕ → Machine → Option (List ℕ)
copied buffer n s = some (take n buffer)

-- The task writes the key "42" and asks for more than there is.
my_fops-read_back_key_example :
    (s2 : Machine) × (file : OpenFile ℕ) × ((Key.my_fops memory_kernel
          (seq_file ℕ)
          kzalloc
          copied).write
        key_file
        (codes "42")
        2
        7
        machine
      ≡ done (pos 2, 9) s2)
    × ((Key.my_fops memory_kernel (seq_file ℕ) kzalloc copied).read key_file 10 0 9 s2
        ≡ done (pos 3, codes "42" ++ (10 ∷ []), file) s2)
unfolding Key.my_fops Key.my_proc_open call
my_fops-read_back_key_example =
    my_fops-read_back_key memory_kernel (seq_file ℕ) (Shows ℕ) (seq_file-IsSeq ℕ) kzalloc copied
      slab none key_file (codes "42") 10 7 machine machine
      (record { addr = 9; bytes = replicate 3 0 }) refl refl refl refl (inl (λ e. cc))
