-- ===== src/Param.antt =====
-- `struct Param` of params.h and the flags of flags.h.
use asynchronous_file_system.Common.{ℕ, Option, List}

-- `fname` is none for a null pointer.
pub record Param : Type 0 where
  pub fname : Option (List ℕ)
  pub b1 : ℕ

abbrev pub clone_prot_mv : ℕ
clone_prot_mv = 0xff1

abbrev pub clone_prot_zip : ℕ
clone_prot_zip = 0xff2

abbrev pub clone_prot_enc : ℕ
clone_prot_enc = 0xff4
