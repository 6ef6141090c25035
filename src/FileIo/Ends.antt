-- ===== src/FileIo/Ends.antt =====
-- The helpers on open files end, whatever the kernel's calls give.
use asynchronous_file_system.Common.{ℕ, List}
use asynchronous_file_system.Kernel.{Kernel}
use asynchronous_file_system.Kernel.Finishes.{Finishes, finishes_rules}
use asynchronous_file_system.FileIo.{file_open, file_close, file_write, delete_input}

module _ (K : Kernel) where
  pub Finishes-file_open : (p : List ℕ) (flags mode : ℕ) → Finishes (file_open K p flags mode)
  unfolding file_open
  Finishes-file_open p flags mode = search finishes_rules

  pub Finishes-file_close : (f : K.File) → Finishes (file_close K f)
  unfolding file_close
  Finishes-file_close f = search finishes_rules

  pub Finishes-file_write :
      (f : K.File) (o : ℕ) (buf : List ℕ) (n : ℕ) → Finishes (file_write K f o buf n)
  unfolding file_write
  Finishes-file_write f o buf n = search finishes_rules

  pub Finishes-delete_input : (f : K.File) → Finishes (delete_input K f)
  unfolding delete_input
  Finishes-delete_input f = search (finishes_rules, Finishes-file_close)
