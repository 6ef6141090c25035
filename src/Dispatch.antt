-- ===== src/Dispatch.antt =====
-- `xclone2` of sys_xclone2.c, the system call for small files: which operation a task's flag asks for.
pub mod Ends
pub mod Flags
pub mod Frame
use asynchronous_file_system.Common.{
  ℕ, ℤ, pos, minus, ◌==◌, if◌then◌else◌, Option, none, some, List,
}
use asynchronous_file_system.Param.{Param}
use asynchronous_file_system.Kernel.{Kernel}
use asynchronous_file_system.Kernel.Constants.{einval}
use asynchronous_file_system.Kernel.Monad.{M, ◌>>=◌, ◌>>◌, pure, ask, deref, choose, if_null}
use asynchronous_file_system.Cipher.{BlockCipher}
use asynchronous_file_system.Compress.{Compressor, processcompress}
use asynchronous_file_system.Encrypt.{processencryption}
use asynchronous_file_system.EncryptCompress.{process_enc_comp}
use asynchronous_file_system.Unlink.{processunlink}

module _ (K : Kernel) (C : BlockCipher K.State) (Z : Compressor K.State) where
  -- The tests behind the branches.
  abbrev pub check_arg : Option Param → M K.State ℤ
  check_arg none = pure (minus einval)
  check_arg (some param) = if_null param.fname (pure (minus einval)) λ _. pure (pos 0)

  -- `enc_key` is the module's global pointer. A branch follows `param` before it is tested; only
  -- that of the flag 4081 passes on what its operation returns.
  unfoldable pub xclone2 : ℕ → Option Param → ℕ → M K.State ℤ
  xclone2 fuel arg enc_key = do
    flag ← ask K.xclone_flag
    choose (flag == 4081) (do param ← deref arg; processunlink K fuel param)
        (choose (flag == 4083)
          (do param ← deref arg; err_zip ← processcompress K Z fuel param.fname; check_arg arg)
          (choose (flag == 4085)
            (do
              param ← deref arg
              err_enc ← processencryption K C fuel param.fname enc_key
              check_arg arg)
            (choose (flag == 4087)
              (do
                param ← deref arg
                enc_err_zip ← process_enc_comp K C Z fuel param.fname enc_key
                check_arg arg)
              (check_arg arg))))
