-- ===== src/Compress/Sizes.antt =====
-- What becomes of a file whose size is too large for the `int` of `compress_file`.
use asynchronous_file_system.Common.{
  ℕ, suc, ◌^◌, ◌≤◌, ◌<◌, ◌≡◌, ◌∙◌, refl, pos, to_int, ltb_ℤ, false, none, some, List, length,
  update, arith,
}
use asynchronous_file_system.Kernel.{Kernel, Buffer}
use asynchronous_file_system.Kernel.Monad.{done, choose, steps}
use asynchronous_file_system.Kernel.Volume.{Volume, IsHealthy}
use asynchronous_file_system.FileIo.{file_close}
use asynchronous_file_system.FileIo.Opens.{delete_input_lem}
use asynchronous_file_system.Compress.{Compressor, compress_loop, compress_file, compress_into}

not_positive : (n : ℕ) → 2 ^ 31 ≤ n → n < 2 ^ 32 → ltb_ℤ (pos 0) (to_int (pos n)) ≡ false
not_positive n lo hi = ground arith

module _ (K : Kernel) (Z : Compressor K.State) (V : Volume K) (H : IsHealthy K V) where
  open V use {contents, path_of}

  compress_file_lem :
      (fuel : ℕ) (f t : K.File) (s : K.State) (d : List ℕ)
      → contents s (path_of f) ≡ some d
      → 2 ^ 31 ≤ length d
      → length d < 2 ^ 32
      → compress_file K Z (suc fuel) f t s ≡ done (pos 0) (K.kmalloc 4 s).1
  unfolding compress_file compress_loop choose steps
  compress_file_lem fuel f t s d held lo hi =
      rw
        (
          H.size f (K.kmalloc 4 s).1 d (rw (H.kmalloc_keeps 4 s) held),
          not_positive (length d) lo hi,
        )
        refl

  -- On a healthy volume, for an input from 2 GiB to below 4 GiB: the size is read as a negative `int`,
  -- so nothing is compressed, and the input is deleted all the same, with result 0. Every other file,
  -- the one in the trash folder included, stays as it was.
  pub compress_into_loses :
      (fuel : ℕ) (f t : K.File) (room : Buffer) (s : K.State) (d : List ℕ)
      → contents s (path_of f) ≡ some d
      → 2 ^ 31 ≤ length d
      → length d < 2 ^ 32
      → (s' : K.State) × (compress_into K Z (suc fuel) f t room s ≡ done (pos 0) s')
        × (contents s' ≡ update (contents s) (path_of f) none)
  unfolding compress_into file_close steps
  compress_into_loses fuel f t room s d held lo hi =
      let kept = H.kmalloc_keeps 4 s in
      let (r, deleted, left) = delete_input_lem K V H f (K.kmalloc 4 s).1 d (rw kept held) in
      (
        K.kfree room.addr (K.filp_close t r),
        rw (compress_file_lem fuel f t s d held lo hi, deleted) refl,
        H.kfree_keeps _ _ ∙ H.close_keeps _ _ ∙ left ∙ rw kept refl,
      )
