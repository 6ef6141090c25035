-- ===== src/Tests/EncryptRuns.antt =====
-- `processencryption` at a concrete file, twice with one key.
use asynchronous_file_system.Common.{
  zero, suc, List, ◌∷◌, ◌++◌, ◌+◌, ◌-◌, ◌∙◌, map, length-map, ap, sym, Option, some, length, arith,
  ℕ, ◌≡◌, refl, ℤ, pos, none, [], codes, ==_iff,
}
use asynchronous_file_system.Kernel.{Buffer}
use asynchronous_file_system.Kernel.Monad.{
  Outcome, done, oops, overrun, unfinished, choose, if_bad, steps,
}
use asynchronous_file_system.Kernel.Memory.{
  Machine, filled_kernel, filled_volume, filled_healthy, open_mode, memory_kernel,
}
use asynchronous_file_system.FileIo.{file_close, file_write, delete_input}
use asynchronous_file_system.Cipher.{zero_padding, padded, padded_len, clone_encryption}
use asynchronous_file_system.Encrypt.{
  next_size, size_left, key_string, read_chunk, encrypt_loop, encrypt_into, processencryption,
}
use asynchronous_file_system.Encrypt.KeyFreed.{encrypt_into_once}
use asynchronous_file_system.Tests.Machines.{
  path_found, cipher, path, text, machine, filled_calendar,
}
use asynchronous_file_system.Cipher.Padding.{length-replicate}
use asynchronous_file_system.Encrypt.Laws.{IsCipher, IsKept}
use asynchronous_file_system.Encrypt.Whole.{locked_away, ByPage, processencryption_seals}

memory_freed : (a : ℕ) (s : Machine) → memory_kernel.load a (memory_kernel.kfree a s) ≡ none
memory_freed a s = rw ((==_iff a a).1 refl) refl

abbrev room : Buffer
room = record { addr = 1; bytes = [] }

abbrev first_run : Outcome Machine ℤ
first_run = encrypt_into memory_kernel cipher 2 path (codes "/t") room 7 (pos 5) machine

abbrev state_of : Outcome Machine ℤ → Machine
state_of (done r s) = s
state_of (oops s) = s
state_of (overrun s) = s
state_of unfinished = machine

first_run-done : first_run ≡ done (pos 0) (state_of first_run)
unfolding encrypt_into encrypt_loop key_string read_chunk next_size size_left clone_encryption
    zero_padding padded padded_len file_write file_close delete_input choose if_bad steps
first_run-done = refl

encrypt_into_once_example :
    encrypt_into memory_kernel cipher 2 path (codes "/u") room 7 (pos 5) (state_of first_run)
    ≡ oops (state_of first_run)
encrypt_into_once_example =
    encrypt_into_once memory_kernel cipher memory_freed 2 2 path (codes "/t") path (codes "/u") room
      room 7 (pos 5) (pos 5) (pos 0) machine (state_of first_run) first_run-done

-- The cipher adds one to every byte; `back` takes it off.
abbrev pub add_one : List ℕ → List ℕ → List ℕ → List ℕ
add_one key iv input = map (λ b. b + 1) input

abbrev pub back : List ℕ → List ℕ
back input = map (λ b. b - 1) input

pub add_one-IsCipher : IsCipher (filled_kernel 0) (filled_volume 0) cipher add_one
add_one-IsCipher = record {
  alloc_valid = λ s. (tt, refl);
  iv_size = λ t. refl;
  encrypt_result = λ t key iv out input s h. refl;
  length-enc = λ key iv input h. length-map (λ b. b + 1) input;
}

abbrev granted : ℕ → Option Buffer → ℕ × ℕ
granted n none = (n, 1)
granted n (some b) = (length b.bytes, b.addr)

open_slab :
    (p : List ℕ) (flags : ℕ) (o : Option (List ℕ)) (s : Machine)
    → (open_mode flags p o s).1.slab 7 ≡ s.slab 7
open_slab p zero none s = refl
open_slab p zero (some d) s = refl
open_slab p (suc flags) o s = refl

pub key-IsKept : IsKept (filled_kernel 0) (filled_volume 0) cipher 7
key-IsKept = record {
  kmalloc_length =
      λ n s b e. ap (λ (o : Option Buffer). (granted n o).0) (sym e) ∙ length-replicate n 0;
  kmalloc_fresh =
      λ n s b bytes h e same. absurd (omega (arith, ap (λ (o : Option Buffer). (granted n o).1) e));
  kmalloc_load = λ n s. refl;
  kfree_load = λ a s other. ground arith;
  set_fs_load = λ l s. refl;
  read_load = λ f b n o s. refl;
  write_load = λ f bytes o s. refl;
  open_load = λ p flags mode s. open_slab p flags (s.disk p) s;
  setxattr_load = λ f name value s. refl;
  setxattr_keeps = λ f name value s. refl;
  alloc_load = λ s. refl;
  setkey_load = λ t k s. refl;
  set_iv_load = λ t v s. refl;
  encrypt_load = λ t out input n s. refl;
  free_load = λ t s. refl;
  alloc_keeps = λ s. refl;
  setkey_keeps = λ t k s. refl;
  set_iv_keeps = λ t v s. refl;
  encrypt_keeps = λ t out input n s. refl;
  free_keeps = λ t s. refl;
}

processencryption_seals_example :
    ByPage
      (filled_kernel 0)
      (filled_volume 0)
      42
      (processencryption (filled_kernel 0) cipher 2 (some path) 7)
      machine
      (λ rest t.
        (s' : Machine) × (processencryption (filled_kernel 0) cipher 2 (some path) 7 machine
          ≡ done (pos 0) s')
        × (s'.disk
            ≡ locked_away
                (filled_kernel 0)
                cipher
                add_one
                machine.disk
                path
                (codes "1789" ++ (0 ∷ []))
                text
                rest
                t))
processencryption_seals_example =
    processencryption_seals (filled_kernel 0) (filled_volume 0) cipher 7 (filled_healthy 0)
      key-IsKept add_one add_one-IsCipher (filled_calendar 0) 2 path text (codes "1789" ++ (0 ∷ []))
      machine refl refl path_found (omega arith) (omega arith)

pub back-add_one : (m : List ℕ) → back (add_one [] [] m) ≡ m
back-add_one [] = refl
back-add_one (x ∷ m) = let e : x + 1 - 1 ≡ x = omega arith in rw (e, back-add_one m) refl
