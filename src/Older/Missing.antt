-- ===== src/Older/Missing.antt =====
-- What the older module does with a file that cannot be opened.
use asynchronous_file_system.Common.{ℕ, ◌≡◌, refl, some, List, codes}
use asynchronous_file_system.Kernel.{Kernel}
use asynchronous_file_system.Kernel.Constants.{o_rdonly, o_wronly_creat}
use asynchronous_file_system.Kernel.Monad.{err_ptr, oops, if_null, steps}
use asynchronous_file_system.Compress.{Compressor}
use asynchronous_file_system.Older.{
  Decompressor, Platform, open_file, through_out_txt, xclone2_older,
}

-- The state behind `open_file`.
abbrev pub opening : (K : Kernel) → Platform → List ℕ → ℕ → K.State → K.State
opening K P file acces s =
    K.set_fs (K.get_fs s) (K.filp_open file acces P.offset_of_f_pos (K.set_fs K.kernel_ds s)).1

-- In every kernel, a call for a file that cannot be opened stops at an oops.
pub xclone2_older_oopses :
    (K : Kernel) (Z : Compressor K.State) (Y : Decompressor Z) (P : Platform) (fuel flags e : ℕ)
    (file : List ℕ) (s : K.State)
    → (K.filp_open file o_rdonly P.offset_of_f_pos (K.set_fs K.kernel_ds s)).0 ≡ err_ptr e
    → (s' : K.State) × (xclone2_older K Z Y P fuel
          (some (record { file = some file; flags = flags }))
          s
        ≡ oops s')
unfolding xclone2_older through_out_txt open_file if_null steps
xclone2_older_oopses K Z Y P fuel flags e file s failed = (
  opening K P (codes "out.txt.cmp") o_wronly_creat
      (opening K P (codes "out.txt") o_wronly_creat (opening K P file o_rdonly s)),
  rw failed refl,
)
