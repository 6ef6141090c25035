-- ===== src/FileIo/Opens.antt =====
-- Opening, deleting and the clock, on a healthy volume.
use asynchronous_file_system.Common.{
  ℕ, ◌*◌, ◌^◌, ◌<◌, ◌≡◌, ◌∙◌, refl, pos, none, some, List, length, update,
}
use asynchronous_file_system.Kernel.{Kernel}
use asynchronous_file_system.Kernel.Constants.{o_rdonly, o_wronly_creat}
use asynchronous_file_system.Kernel.Monad.{valid, done, steps}
use asynchronous_file_system.Kernel.Volume.{Volume, IsHealthy, or_empty}
use asynchronous_file_system.FileIo.{file_open, file_close, delete_input}
use asynchronous_file_system.TrashName.Bounds.{IsDate}

module _ (K : Kernel) where
  -- The clock shows a date from 1900 to 9999 and a time whose minutes fit an `int`;
  -- `strreplace` keeps the length of its string.
  pub record IsCalendar : Type 0 where
    pub date : (t : ℕ) → IsDate (K.time_to_tm t)
    pub early : (s : K.State) → K.do_gettimeofday s < 60 * 2 ^ 31
    pub length-strreplace : (p : List ℕ) (a b : ℕ) → length (K.strreplace p a b) ≡ length p

module _ (K : Kernel) (V : Volume K) (H : IsHealthy K V) where
  open V use {contents, path_of}

  pub file_open_lem :
      (p : List ℕ) (mode : ℕ) (s : K.State) (d : List ℕ)
      → contents s p ≡ some d
      → (f : K.File) × (s' : K.State) × (file_open K p o_rdonly mode s ≡ done (valid f) s')
        × (path_of f ≡ p)
        × (contents s' ≡ contents s)
  unfolding file_open steps
  file_open_lem p mode s d e =
      let (f, opened, named) =
        H.open_valid p mode (K.set_fs K.kernel_ds s) d (rw (H.set_fs_keeps K.kernel_ds s) e) in
      (
        f,
        (K.filp_open p o_rdonly mode (K.set_fs K.kernel_ds s)).1,
        rw opened refl,
        named,
        H.open_keeps _ _ _ ∙ H.set_fs_keeps _ _,
      )

  pub file_creat_lem :
      (p : List ℕ) (mode : ℕ) (s : K.State)
      → (f : K.File) × (s' : K.State) × (file_open K p o_wronly_creat mode s ≡ done (valid f) s')
        × (path_of f ≡ p)
        × (contents s' ≡ update (contents s) p (some (or_empty (contents s p))))
  unfolding file_open steps
  file_creat_lem p mode s =
      let (f, opened, named) = H.creat_valid p mode (K.set_fs K.kernel_ds s) in
      (
        f,
        (K.filp_open p o_wronly_creat mode (K.set_fs K.kernel_ds s)).1,
        rw opened refl,
        named,
        H.creat_contents _ _ _ ∙ rw (H.set_fs_keeps K.kernel_ds s) refl,
      )

  pub delete_input_lem :
      (f : K.File) (s : K.State) (d : List ℕ)
      → contents s (path_of f) ≡ some d
      → (s' : K.State) × (delete_input K f s ≡ done (pos 0) s')
        × (contents s' ≡ update (contents s) (path_of f) none)
  unfolding delete_input file_close steps
  delete_input_lem f s d e =
      let locked = K.i_mutex_lock f (K.filp_close f s) in
      let same : contents locked ≡ contents s = H.lock_keeps _ _ ∙ H.close_keeps _ _ in
      (
        K.i_mutex_unlock f (K.vfs_unlink f locked).1,
        rw (H.unlink_result f locked d (rw same e)) refl,
        H.unlock_keeps _ _ ∙ H.unlink_contents f locked ∙ rw same refl,
      )
