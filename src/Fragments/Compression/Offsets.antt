-- ===== src/Fragments/Compression/Offsets.antt =====
-- Which offsets the two functions take.
use asynchronous_file_system.Common.{
  ℕ, ◌+◌, ◌^◌, ◌<◌, ◌≡◌, ◌∙◌, refl, pos, to_int_small, some, List, ◌++◌, length, length-take, take,
  take_all, drop, splice, update, update_self, arith,
}
use asynchronous_file_system.Kernel.{Kernel}
use asynchronous_file_system.Kernel.Monad.{done, steps}
use asynchronous_file_system.Kernel.Volume.{Volume, IsHealthy}
use asynchronous_file_system.Fragments.Compression.{read_file, write_file}

module _ (K : Kernel) (V : Volume K) (H : IsHealthy K V) where
  open V use {contents, path_of}

  -- On a healthy volume, after `write_file` of some bytes at an offset, `read_file` of that file finds
  -- the first bytes of what it holds then, whatever offset it is given; the write has changed no other
  -- file, and the read none.
  pub read_file-write_file :
      (f : K.File) (bytes buf d : List ℕ) (n o o' before : ℕ) (s : K.State)
      → contents s (path_of f) ≡ some d
      → length bytes < 2 ^ 31
      → n < 2 ^ 31
      → let written = splice d o bytes in
        (s1 s2 : K.State) × (write_file K f (length bytes) bytes o before s
          ≡ done (pos (length bytes), 0) s1)
        × (read_file K f n buf o' 0 s1
            ≡ done
                (
                  pos (length (take n written)),
                  take n written ++ drop (length (take n written)) buf,
                  length (take n written),
                )
                s2)
        × (contents s2 ≡ update (contents s) (path_of f) (some written))
  unfolding read_file write_file steps
  read_file-write_file f bytes buf d n o o' before s held small few =
      let raised = K.set_fs K.kernel_ds s in
      let held' : contents raised (path_of f) ≡ some d = rw (H.set_fs_keeps K.kernel_ds s) held in
      let s1 = K.set_fs (K.get_fs s) (K.vfs_write f bytes o raised).1 in
      let effect : contents s1 ≡ update (contents s) (path_of f) (some (splice d o bytes)) =
        H.set_fs_keeps _ _
        ∙ H.write_contents f bytes o raised d held'
        ∙ rw (H.set_fs_keeps K.kernel_ds s) refl in
      let raised1 = K.set_fs K.kernel_ds s1 in
      let there : contents raised1 (path_of f) ≡ some (splice d o bytes) =
        rw (H.set_fs_keeps K.kernel_ds s1, effect) (update_self (contents s) (path_of f) _) in
      (
        s1,
        K.set_fs (K.get_fs s1) (K.vfs_read f buf n 0 raised1).1,
        rw
            (
              take_all (length bytes) bytes (omega arith),
              H.write_result f bytes o raised d held',
              to_int_small (length bytes) small,
            )
            refl,
        rw
            (
              H.read_result f buf n 0 raised1 (splice d o bytes) there,
              to_int_small (length (take n (splice d o bytes)))
                  (omega (arith, length-take n (splice d o bytes))),
            )
            (let start : 0 + length (take n (splice d o bytes))
                  ≡ length (take n (splice d o bytes)) =
                omega arith in
              rw start refl),
        H.set_fs_keeps _ _ ∙ H.read_keeps f buf n 0 raised1 ∙ H.set_fs_keeps _ _ ∙ effect,
      )
