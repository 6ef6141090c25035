-- ===== src/Tests/PackRuns.antt =====
-- A small file through the compression.
use asynchronous_file_system.Common.{
  ℕ, ◌+◌, ◌*◌, ◌<◌, ◌≡◌, ◌∙◌, refl, ap, ℤ, pos, minus, none, some, List, [], ◌++◌, codes, bytes_ne,
  length, length-append, take, drop, leb, le→leb, if◌then◌else◌, update_ne, arith, length-take,
  Option,
}
use asynchronous_file_system.Kernel.{Buffer}
use asynchronous_file_system.Kernel.Monad.{valid, done}
use asynchronous_file_system.Kernel.Memory.{Machine, filled_kernel, filled_volume, filled_healthy}
use asynchronous_file_system.Cipher.Padding.{length-replicate}
use asynchronous_file_system.TrashName.Bounds.{take-stamp_root}
use asynchronous_file_system.Encrypt.Seal.{chunks}
use asynchronous_file_system.Encrypt.Whole.{name_with, ByPage}
use asynchronous_file_system.Compress.{Compressor, processcompress}
use asynchronous_file_system.Compress.Packer.{IsPacker, IsRoomy}
use asynchronous_file_system.Compress.Packed.{Packs}
use asynchronous_file_system.Compress.Whole.{packed_file, packed_away, processcompress_packs}
use asynchronous_file_system.Tests.Machines.{
  filled_calendar, length-filled, path_found, machine, path, text,
}

abbrev pub framed : List ℕ → List ℕ
framed input = input ++ codes "trailing"

abbrev pub put : List ℕ → ℕ → ℤ × List ℕ × ℕ
put packed n = if leb (length packed) n then (pos 0, packed, length packed) else (minus 22, [], 0)

-- A compressor that puts eight bytes behind its input.
abbrev pub framing : Compressor Machine
framing = record {
  Tfm = Unit {0};
  alloc_comp = λ s. (valid tt, s);
  comp_compress = λ t input n s. (put (framed input) n, s);
}

pub framing-IsPacker : IsPacker (filled_kernel 0) (filled_volume 0) framing framed
framing-IsPacker = record {
  alloc_valid = λ s. (tt, refl);
  alloc_keeps = λ s. refl;
  compress_result = λ t input n s h. rw (le→leb (length (framed input)) n h) refl;
  compress_keeps = λ t input n s. refl;
  kmalloc_length = λ n s b e. length-filled 0 n s b e;
}

abbrev address_of : Option Buffer → ℕ
address_of none = 0
address_of (some b) = b.addr

pub roomy : IsRoomy (filled_kernel 0)
roomy = record {
  address_room = λ s b e. let at : 0x1000 ≡ b.addr = ap address_of e in rw (← at) (omega arith);
  length-garbage = λ n s. length-replicate n 0x55;
}

pub text_packs : Packs framed text
text_packs k h =
    let piece = take 4080 (drop (k * 4080) text) in
    (
      omega (arith, length-append piece (codes "trailing")),
      omega
          (arith, length-append piece (codes "trailing"), length-take 4080 (drop (k * 4080) text)),
    )

pub unused :
    (suffix rest : List ℕ) (t : ℕ)
    → machine.disk (name_with (filled_kernel 0) rest suffix path t) ≡ none
unused suffix rest t =
    update_ne (λ p. none) path (name_with (filled_kernel 0) rest suffix path t) (some text)
      (λ e. bytes_ne (take 4 path) (codes "/usr") refl (ap (take 4) e ∙ take-stamp_root rest _ _ _))

processcompress_packs_example :
    ByPage
      (filled_kernel 0)
      (filled_volume 0)
      42
      (processcompress (filled_kernel 0) framing 2 (some path))
      machine
      (λ rest t.
        (s' : Machine) × (tei : List ℕ) × (processcompress
            (filled_kernel 0)
            framing
            2
            (some path)
            machine
          ≡ done (pos 0) s')
        × (s'.disk ≡ packed_away (filled_kernel 0) framed machine.disk path text rest t tei)
        × (0 < length text → length (packed_file framed text tei) ≡ 8 * chunks (length text) + 4))
processcompress_packs_example =
    processcompress_packs (filled_kernel 0) (filled_volume 0) (filled_healthy 0) framing framed
      framing-IsPacker roomy (filled_calendar 0) 2 path text machine refl (unused (codes ".cmp"))
      path_found (omega arith) text_packs (omega arith)
