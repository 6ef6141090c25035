-- ===== src/Dispatch/Ends.antt =====
-- `xclone2` ends for every flag that does not move a file, whatever the kernel's calls give.
use asynchronous_file_system.Common.{ℕ, ◌<◌, ◌≢◌, ne→==, none, some, Option}
use asynchronous_file_system.Param.{Param}
use asynchronous_file_system.Kernel.{Kernel}
use asynchronous_file_system.Kernel.Monad.{steps}
use asynchronous_file_system.Kernel.Finishes.{
  Finishes, IsFinished, finishes_rules, IsFinished-choose,
}
use asynchronous_file_system.Cipher.{BlockCipher}
use asynchronous_file_system.Compress.{Compressor}
use asynchronous_file_system.Compress.Ends.{Finishes-processcompress}
use asynchronous_file_system.Encrypt.Ends.{processencryption_ends}
use asynchronous_file_system.EncryptCompress.Ends.{Finishes-process_enc_comp}
use asynchronous_file_system.Dispatch.{check_arg, xclone2}

module _ (K : Kernel) (C : BlockCipher K.State) (Z : Compressor K.State) where
  Finishes-check_arg : (arg : Option Param) → Finishes (check_arg K C Z arg)
  Finishes-check_arg none = search finishes_rules
  Finishes-check_arg (some param) = search finishes_rules

  ruleset request_rules = (
    finishes_rules, Finishes-check_arg, Finishes-processcompress, processencryption_ends,
    Finishes-process_enc_comp,
  )

  -- In every kernel, whatever its calls give and wherever they fail, 526,346 rounds are enough for
  -- each flag but 4081: the call does not run out of fuel.
  pub xclone2_ends :
      (fuel : ℕ) (arg : Option Param) (enc_key : ℕ) (s : K.State)
      → 526_345 < fuel
      → K.xclone_flag s ≢ 4081
      → IsFinished (xclone2 K C Z fuel arg enc_key s)
  unfolding xclone2 steps
  xclone2_ends fuel arg key s h other =
      IsFinished-choose _ _ _ s (ne→== _ _ other) (search request_rules depth 30 fits 4000)
