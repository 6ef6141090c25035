-- ===== src/Proc/Seq.antt =====
-- The operations behind an entry in /proc, and what <linux/seq_file.h> has of them.
use asynchronous_file_system.Common.{ℕ, ◌≡◌, ℤ, pos, List, length, take, subst, ap}
use asynchronous_file_system.Kernel.Monad.{M, done, call}

-- A `struct file_operations`, without its owner, on open files F, the kernel's state S and the module's
-- global of type G. `read` gives its result and what the task gets; it and `write` take the size that
-- the task asks for, and `read` the position. What `open` and `read` do to the file is in their results.
pub record FileOperations (F S G : Type 0) : Type 0 where
  pub open_entry : F → M S (ℤ × F)
  pub release : F → M S ℤ
  pub read : F → ℕ → ℕ → G → M S (ℤ × List ℕ × F)
  pub llseek : F → ℤ → ℕ → M S ℤ
  pub write : F → List ℕ → ℕ → G → M S (ℤ × G)

-- The calls. `single_open` takes the function that prints the text.
pub record Seq (S G : Type 0) : Type 1 where
  pub File : Type 0
  pub single_open : File → (G → M S (List ℕ)) → S → (ℤ × File) × S
  pub single_release : File → M S ℤ
  pub seq_read : File → ℕ → ℕ → G → M S (ℤ × List ℕ × File)
  pub seq_lseek : File → ℤ → ℕ → M S ℤ

-- Where nothing fails: a file that `single_open` has opened keeps its function, and a read from the
-- start gives as much as is asked for of what the function prints then.
pub record IsSeq {S G : Type 0} (Q : Seq S G) (Shows : Q.File → (G → M S (List ℕ)) → Type 0)
    : Type 0 where
  pub opened :
      (f : Q.File) (show : G → M S (List ℕ)) (s : S)
      → (Q.single_open f show s).0.0 ≡ pos 0
      → Shows (Q.single_open f show s).0.1 show
  pub reads :
      (f : Q.File) (show : G → M S (List ℕ)) (size : ℕ) (g : G) (text : List ℕ) (s s' : S)
      → Shows f show
      → show g s ≡ done text s'
      → (f' : Q.File) × (Q.seq_read f size 0 g s
          ≡ done (pos (length (take size text)), take size text, f') s')

module _ {S G : Type 0} (Q : Seq S G) (Shows : Q.File → (G → M S (List ℕ)) → Type 0)
    (L : IsSeq Q Shows) where
  pub opened-Shows :
      (file file' : Q.File) (show : G → M S (List ℕ)) (s s' : S)
      → call (Q.single_open file show) s ≡ done (pos 0, file') s'
      → Shows file' show
  unfolding call
  opened-Shows file file' show s s' e =
      let result : (Q.single_open file show s).0 ≡ (pos 0, file') = cc in
      subst (λ f. Shows f show) (ap (λ r. r.1) result) (L.opened file show s (ap (λ r. r.0) result))
