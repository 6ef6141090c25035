-- ===== src/Older/RoundTrip.antt =====
-- A file of one chunk through `compress_file` and `decompress_file`.
use asynchronous_file_system.Common.{
  ℕ, ◌≤◌, ◌<◌, ◌≡◌, ℤ, pos, to_u32, List, ◌∷◌, ◌++◌, length, drop, format_d,
}
use asynchronous_file_system.Kernel.{Kernel}
use asynchronous_file_system.Kernel.Volume.{Volume, IsHealthy}
use asynchronous_file_system.Compress.{Compressor}
use asynchronous_file_system.Older.{Decompressor, Platform}
use asynchronous_file_system.Older.Packed.{IsLossless}

-- `kstrtoint` reads a number of one digit up to its NUL.
abbrev pub ParsesDigit : Platform → Type 0
ParsesDigit P =
    (n : ℕ) (rest : List ℕ) (old : ℤ)
    → n < 10
    → P.kstrtoint (format_d (pos n) ++ (0 ∷ rest)) old ≡ pos n

module _ (K : Kernel) (V : Volume K) (H : IsHealthy K V) (Z : Compressor K.State)
    (Y : Decompressor Z) (comp : List ℕ → List ℕ) (Q : IsLossless K V Z Y comp) (P : Platform)
    (parses : ParsesDigit P) where
  open V use {contents, path_of}

  -- Local arrays of four and of eight bytes, and two integers in them that are not set but large
  -- enough for the output of the two calls.
  pub record HasStack (d : List ℕ) (s : K.State) : Type 0 where
    pub four : length (K.garbage 4 s) ≡ 4
    pub packed_room : length (comp d) ≤ to_u32 (P.int_at (K.garbage 4 s))
    pub plain_room : length d ≤ to_u32 (P.int_at (drop 4 (K.garbage 8 s)))
