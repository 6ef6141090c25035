-- ===== src/Tests/EncCompRuns.antt =====
-- A small file through the compression and the encryption, and through the encryption and back.
use asynchronous_file_system.Common.{
  ℕ, ◌+◌, ◌≡◌, refl, pos, length-map, some, List, [], ◌∷◌, ◌++◌, codes, length, arith,
}
use asynchronous_file_system.Kernel.Monad.{done}
use asynchronous_file_system.Kernel.Memory.{Machine, filled_kernel, filled_volume, filled_healthy}
use asynchronous_file_system.Compress.Whole.{packed_file}
use asynchronous_file_system.Encrypt.{processencryption}
use asynchronous_file_system.Encrypt.Whole.{ByPage}
use asynchronous_file_system.Encrypt.Recovery.{IsRecoverable, processencryption_recovers}
use asynchronous_file_system.EncryptCompress.{process_enc_comp}
use asynchronous_file_system.EncryptCompress.KeyStays.{IsLeft}
use asynchronous_file_system.EncryptCompress.Whole.{packed_and_locked, process_enc_comp_seals}
use asynchronous_file_system.Tests.Machines.{
  cipher, filled_calendar, machine, path, path_found, text,
}
use asynchronous_file_system.Tests.EncryptRuns.{
  add_one, add_one-IsCipher, back, back-add_one, key-IsKept,
}
use asynchronous_file_system.Tests.PackRuns.{
  framed, framing, framing-IsPacker, roomy, text_packs, unused,
}

framing-IsLeft : IsLeft (filled_kernel 0) framing 7
framing-IsLeft = record {
  close_load = λ f s. refl;
  lock_load = λ f s. refl;
  unlock_load = λ f s. refl;
  unlink_load = λ f s. refl;
  alloc_load = λ s. refl;
  compress_load = λ t input n s. refl;
}

process_enc_comp_seals_example :
    ByPage
      (filled_kernel 0)
      (filled_volume 0)
      46
      (process_enc_comp (filled_kernel 0) cipher framing 2 (some path) 7)
      machine
      (λ rest t.
        (s' : Machine) × (tei : List ℕ) × (process_enc_comp
            (filled_kernel 0)
            cipher
            framing
            2
            (some path)
            7
            machine
          ≡ done (pos 0) s')
        × (s'.disk
            ≡ packed_and_locked
                (filled_kernel 0)
                cipher
                add_one
                machine.disk
                path
                (packed_file framed text tei)
                (codes "1789" ++ (0 ∷ []))
                rest
                t)
        × (length tei ≡ 4))
process_enc_comp_seals_example =
    process_enc_comp_seals (filled_kernel 0) (filled_volume 0) cipher 7 (filled_healthy 0)
      key-IsKept add_one add_one-IsCipher (filled_calendar 0) framing framing-IsLeft framed
      framing-IsPacker roomy 2 path text (codes "1789" ++ (0 ∷ [])) machine refl refl refl
      path_found (omega arith) text_packs (omega arith)

processencryption_recovers_example :
    ByPage
      (filled_kernel 0)
      (filled_volume 0)
      42
      (processencryption (filled_kernel 0) cipher 2 (some path) 7)
      machine
      (λ rest t.
        (s' : Machine) × (processencryption (filled_kernel 0) cipher 2 (some path) 7 machine
          ≡ done (pos 0) s')
        × IsRecoverable
            (filled_kernel 0)
            cipher
            (λ key iv. back)
            s'.disk
            path
            text
            (codes "1789" ++ (0 ∷ []))
            rest
            t)
processencryption_recovers_example =
    processencryption_recovers (filled_kernel 0) (filled_volume 0) cipher 7 (filled_healthy 0)
      key-IsKept add_one (λ key iv. back) add_one-IsCipher (filled_calendar 0)
      (λ key iv m h. length-map (λ b. b + 1) m) (λ key iv m h. back-add_one m) 2 path text
      (codes "1789" ++ (0 ∷ [])) machine refl (unused (codes ".enc")) refl path_found (omega arith)
      (omega arith)
