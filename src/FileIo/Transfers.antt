-- ===== src/FileIo/Transfers.antt =====
-- Reads and writes through the helpers, on a healthy volume.
use asynchronous_file_system.Common.{
  ℕ, ◌^◌, ◌<◌, ◌≡◌, ◌∙◌, refl, pos, to_int_small, some, List, ◌++◌, length, take, drop, splice,
  update,
}
use asynchronous_file_system.Kernel.{Kernel}
use asynchronous_file_system.Kernel.Monad.{done, steps}
use asynchronous_file_system.Kernel.Volume.{Volume, IsHealthy, chunk}
use asynchronous_file_system.FileIo.{file_read, file_write}

module _ (K : Kernel) (V : Volume K) (H : IsHealthy K V) where
  open V use {contents, path_of}

  pub file_read_lem :
      (f : K.File) (o : ℕ) (buf : List ℕ) (n : ℕ) (s : K.State) (d : List ℕ)
      → contents s (path_of f) ≡ some d
      → length (chunk K V n o d) < 2 ^ 31
      → (s' : K.State) × (file_read K f o buf n s
          ≡ done
              (
                pos (length (chunk K V n o d)),
                chunk K V n o d ++ drop (length (chunk K V n o d)) buf,
              )
              s')
        × (contents s' ≡ contents s)
  unfolding file_read steps
  file_read_lem f o buf n s d e h = (
    K.set_fs (K.get_fs s) (K.vfs_read f buf n o (K.set_fs K.kernel_ds s)).1,
    rw
        (
          H.read_result f buf n o (K.set_fs K.kernel_ds s) d (rw (H.set_fs_keeps K.kernel_ds s) e),
          to_int_small _ h,
        )
        refl,
    H.set_fs_keeps _ _ ∙ H.read_keeps _ _ _ _ _ ∙ H.set_fs_keeps _ _,
  )

  pub file_write_lem :
      (f : K.File) (o : ℕ) (buf : List ℕ) (n : ℕ) (s : K.State) (d : List ℕ)
      → contents s (path_of f) ≡ some d
      → length (take n buf) < 2 ^ 31
      → (s' : K.State) × (file_write K f o buf n s ≡ done (pos (length (take n buf))) s')
        × (contents s' ≡ update (contents s) (path_of f) (some (splice d o (take n buf))))
  unfolding file_write steps
  file_write_lem f o buf n s d e h = (
    K.set_fs (K.get_fs s) (K.vfs_write f (take n buf) o (K.set_fs K.kernel_ds s)).1,
    rw
        (
          H.write_result f (take n buf) o (K.set_fs K.kernel_ds s) d
              (rw (H.set_fs_keeps K.kernel_ds s) e),
          to_int_small _ h,
        )
        refl,
    H.set_fs_keeps _ _
        ∙ H.write_contents f (take n buf) o (K.set_fs K.kernel_ds s) d
            (rw (H.set_fs_keeps K.kernel_ds s) e)
        ∙ rw (H.set_fs_keeps K.kernel_ds s) refl,
  )
