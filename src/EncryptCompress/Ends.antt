-- ===== src/EncryptCompress/Ends.antt =====
-- `process_enc_comp` ends, whatever the kernel's calls give.
use asynchronous_file_system.Common.{ℕ, ◌<◌, pos, to_int, Option, List, arith}
use asynchronous_file_system.Kernel.{Kernel, Buffer}
use asynchronous_file_system.Kernel.Finishes.{Finishes, finishes_rules}
use asynchronous_file_system.FileIo.Ends.{
  Finishes-file_open, Finishes-file_close, Finishes-delete_input,
}
use asynchronous_file_system.Cipher.{BlockCipher}
use asynchronous_file_system.Encrypt.{encrypt_into}
use asynchronous_file_system.Encrypt.Ends.{
  rounds-to_int, Finishes-name_in_page, Finishes-encrypt_into,
}
use asynchronous_file_system.Compress.{Compressor}
use asynchronous_file_system.Compress.Ends.{Finishes-compress_file}
use asynchronous_file_system.EncryptCompress.{encrypt_temp, compress_then_encrypt, process_enc_comp}

module _ (K : Kernel) (C : BlockCipher K.State) (Z : Compressor K.State) where
  Finishes-encrypt_temp :
      (fuel : ℕ) (trash : List ℕ) (room : Buffer) (key : ℕ)
      → 526_345 < fuel
      → Finishes (encrypt_temp K C Z fuel trash room key)
  unfolding encrypt_temp
  Finishes-encrypt_temp fuel trash room key h =
      let into : (f t : K.File) (size : ℕ)
          → Finishes (encrypt_into K C fuel f t room key (to_int (pos size))) =
        λ f t size.
          Finishes-encrypt_into K C fuel f t room key (to_int (pos size))
            (omega (arith, rounds-to_int (pos size))) in
      search (finishes_rules, Finishes-file_open, into) depth 20

  Finishes-compress_then_encrypt :
      (fuel : ℕ) (name : Option (List ℕ)) (b : Buffer) (key : ℕ)
      → 526_345 < fuel
      → Finishes (compress_then_encrypt K C Z fuel name b key)
  unfolding compress_then_encrypt
  Finishes-compress_then_encrypt fuel name b key h =
      search
        (
          finishes_rules, Finishes-file_open, Finishes-file_close, Finishes-name_in_page,
          Finishes-compress_file, Finishes-delete_input, Finishes-encrypt_temp,
        )
        depth 24 fits 2000

  pub Finishes-process_enc_comp :
      (fuel : ℕ) (name : Option (List ℕ)) (key : ℕ)
      → 526_345 < fuel
      → Finishes (process_enc_comp K C Z fuel name key)
  unfolding process_enc_comp
  Finishes-process_enc_comp fuel name key h =
      search (finishes_rules, Finishes-compress_then_encrypt) depth 20
