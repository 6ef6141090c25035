-- ===== src/EncryptCompress.antt =====
-- `process_enc_comp` of sys_xclone2.c (`-mce`): compress a file into temp.txt, delete the file,
-- encrypt temp.txt into the trash folder, and delete temp.txt.
pub mod Frame
pub mod Ends
pub mod KeyStays
pub mod Whole
use asynchronous_file_system.Common.{
  ℕ, ℤ, pos, minus, ◌-ℤ◌, to_int, Option, none, some, List, ◌++◌, codes,
}
use asynchronous_file_system.Kernel.{Kernel, Buffer}
use asynchronous_file_system.Kernel.Constants.{
  path_max, o_rdonly, o_wronly_creat, mode_0644, eperm, enomem,
}
use asynchronous_file_system.Kernel.Monad.{
  ptr_err, M, ◌>>=◌, ◌>>◌, pure, call, run, ask, fault, deref, if_null, if_bad,
}
use asynchronous_file_system.FileIo.{file_open, file_close, delete_input}
use asynchronous_file_system.Cipher.{BlockCipher}
use asynchronous_file_system.Encrypt.{name_in_page, encrypt_into}
use asynchronous_file_system.Compress.{Compressor, compress_file}

abbrev pub temp_name : List ℕ
temp_name = codes "temp.txt"

module _ (K : Kernel) (C : BlockCipher K.State) (Z : Compressor K.State) where
  open K use {State, File}

  -- The second half: the test after the second `file_open` looks at `f_temp` again, so a failure
  -- to open the trash file is met where `f_write` is followed.
  pub encrypt_temp : ℕ → List ℕ → Buffer → ℕ → M State ℤ
  encrypt_temp fuel trash room key = do
    f_read ← file_open K temp_name o_rdonly 0
    if_bad f_read (λ _. pure (minus eperm))
        λ f. do
          f_write ← file_open K trash o_wronly_creat mode_0644
          size ← ask (K.i_size_read f)
          if_bad f_write (λ _. fault) λ t. encrypt_into K C fuel f t room key (to_int (pos size))

  pub compress_then_encrypt : ℕ → Option (List ℕ) → Buffer → ℕ → M State ℤ
  compress_then_encrypt fuel name filename key = do
    get_time ← ask K.do_gettimeofday
    page ← call (K.kmalloc path_max)
    room ← deref page
    fname ← deref name
    f_read ← file_open K fname o_rdonly 0
    if_bad f_read (λ _. pure (minus eperm))
        λ f. do
          trash ← name_in_page K f filename room get_time (codes ".enc" ++ codes ".cmp")
          f_temp ← file_open K temp_name o_wronly_creat mode_0644
          if_bad f_temp (λ p. pure (pos 0 -ℤ ptr_err p))
              λ t. do
                zip_err ← compress_file K Z fuel f t
                err ← delete_input K f
                file_close K t
                encrypt_temp fuel trash room key

  unfoldable pub process_enc_comp : ℕ → Option (List ℕ) → ℕ → M State ℤ
  unfolding encrypt_temp compress_then_encrypt
  process_enc_comp fuel name key = do
    replace ← call (K.kmalloc path_max)
    if_null replace (pure (minus enomem)) λ _. do
      filename ← call (K.kmalloc path_max)
      if_null filename (pure (minus enomem)) λ b. do
        path ← call (K.kmalloc path_max)
        if_null path (pure (minus enomem)) λ _. compress_then_encrypt fuel name b key
