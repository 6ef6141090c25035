-- ===== src/Tests/Machines.antt =====
-- Concrete machines.
use asynchronous_file_system.Common.{
  ◌≡◌, ◌∙◌, ap, sym, Option, ℕ, refl, pos, none, some, List, [], ◌∷◌, ◌++◌, ◌+◌, ◌/◌, map, take,
  drop, codes, length, length-map, update, ◌==◌, if◌then◌else◌, arith,
}
use asynchronous_file_system.Kernel.{Buffer}
use asynchronous_file_system.Cipher.Padding.{length-replicate}
use asynchronous_file_system.Encrypt.Whole.{FindsPath}
use asynchronous_file_system.Param.{Param}
use asynchronous_file_system.Kernel.Memory.{
  Machine, filled_kernel, filled_volume, memory_kernel, memory_volume,
}
use asynchronous_file_system.FileIo.Opens.{IsCalendar}
use asynchronous_file_system.Kernel.Monad.{valid}
use asynchronous_file_system.Cipher.{BlockCipher}
use asynchronous_file_system.Cipher.Frame as Enc
use asynchronous_file_system.Compress.{Compressor}
use asynchronous_file_system.Compress.Frame as Zip

pub filled_calendar : (fill : ℕ) → IsCalendar (filled_kernel fill)
filled_calendar fill = record {
  date = λ t. record {
    year = 118;
    month = 3;
    day = 7;
    tm_year-eq = refl;
    tm_mon-eq = refl;
    tm_mday-eq = refl;
    year-lt = omega arith;
    month-lt = omega arith;
    day-lt = omega arith;
  };
  early = λ s. omega arith;
  length-strreplace = λ p a b. length-map (λ c. if c == a then b else c) p;
}

pub memory_calendar : IsCalendar memory_kernel
memory_calendar = filled_calendar 0xaa

abbrev pub path : List ℕ
path = codes "/a.txt"

abbrev pub text : List ℕ
text = codes "hello"

-- One file, and a key at address 7.
abbrev pub machine : Machine
machine = record {
  disk = update (λ p. none) path (some text);
  limit = 0;
  clock = 59_674;
  flag = 4081;
  slab = λ a. if a == 7 then some (codes "1789" ++ (0 ∷ [])) else none;
}

abbrev pub args : Param
args = record { fname = some path; b1 = 0xff1 }

-- A cipher that adds one to every byte, and a compressor that keeps the first half.
abbrev pub cipher : BlockCipher Machine
cipher = record {
  Tfm = Unit {0};
  aes_iv = codes "cephsageyudagreg";
  alloc_blkcipher = λ s. (valid tt, s);
  setkey = λ t k s. s;
  ivsize = λ t. 16;
  set_iv = λ t v s. s;
  encrypt = λ t out input n s. ((pos 0, map (λ b. b + 1) input ++ drop n out), s);
  free_blkcipher = λ t s. s;
}

abbrev pub compressor : Compressor Machine
compressor = record {
  Tfm = Unit {0};
  alloc_comp = λ s. (valid tt, s);
  comp_compress = λ t input n s. ((pos 0, take (length input / 2) input, length input / 2), s);
}

pub cipher_quiet : Enc.IsQuiet memory_kernel memory_volume cipher
cipher_quiet = record {
  alloc_keeps = λ s. refl;
  setkey_keeps = λ t k s. refl;
  set_iv_keeps = λ t v s. refl;
  encrypt_keeps = λ t out input n s. refl;
  free_keeps = λ t s. refl;
}

pub compressor_quiet : Zip.IsQuiet memory_kernel memory_volume compressor
compressor_quiet = record { alloc_keeps = λ s. refl; compress_keeps = λ t input n s. refl }

abbrev given : ℕ → Option Buffer → ℕ
given n none = n
given n (some b) = length b.bytes

pub length-filled :
    (fill n : ℕ) (s : Machine) (b : Buffer)
    → ((filled_kernel fill).kmalloc n s).0 ≡ some b
    → length b.bytes ≡ n
length-filled fill n s b e = ap (given n) (sym e) ∙ length-replicate n fill

pub path_found : FindsPath (filled_kernel 0) (filled_volume 0) path
path_found = record { found = λ f b s e. ap some e }
