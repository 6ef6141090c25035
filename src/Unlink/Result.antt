-- ===== src/Unlink/Result.antt =====
-- What `processunlink` does to the files of a healthy volume.
use asynchronous_file_system.Common.{
  ℕ, ◌/◌, ◌^◌, ◌<◌, ◌≡◌, ◌≢◌, ◌∙◌, refl, sym, pos, none, some, List, length, overlay, update,
  update_self, update_ne, update-update, arith,
}
use asynchronous_file_system.Param.{Param}
use asynchronous_file_system.Kernel.{Kernel, Buffer}
use asynchronous_file_system.Kernel.Constants.{page_size, mode_0644}
use asynchronous_file_system.Kernel.Monad.{done, oops, if_null, if_bad, steps}
use asynchronous_file_system.Kernel.Volume.{Volume, IsHealthy, or_empty}
use asynchronous_file_system.FileIo.{file_close}
use asynchronous_file_system.FileIo.Opens.{file_open_lem, file_creat_lem, delete_input_lem}
use asynchronous_file_system.TrashName.{name_room}
use asynchronous_file_system.Unlink.{
  trash_name, after_copy, copied, copy_and_delete, move_to_trash, with_buffers, processunlink,
}
use asynchronous_file_system.Unlink.Copy.{copy_loop_lem}

module _ (K : Kernel) (V : Volume K) (H : IsHealthy K V) where
  open V use {contents, path_of}

  after_copy_lem :
      (f t : K.File) (b1 b2 name : Buffer) (s : K.State) (d : List ℕ)
      → contents s (path_of f) ≡ some d
      → (s' : K.State) × (after_copy K copied f t b1 b2 name s ≡ done (pos 0) s')
        × (contents s' ≡ update (contents s) (path_of f) none)
  unfolding after_copy file_close steps
  after_copy_lem f t b1 b2 name s d e =
      let (r, deleted, left) = delete_input_lem K V H f s d e in
      (
        K.kfree b2.addr (K.kfree b1.addr (K.kfree name.addr (K.filp_close t r))),
        rw deleted refl,
        H.kfree_keeps _ _ ∙ H.kfree_keeps _ _ ∙ H.kfree_keeps _ _ ∙ H.close_keeps _ _ ∙ left,
      )

  -- The part of `processunlink` from the opening of the trash file on, on a healthy volume, for an open
  -- input of less than 2 ^ 31 bytes and any other name, with fuel for one round a page: it returns 0,
  -- the bytes of the input are written over what the file of that name held before, the input's name is
  -- gone, and no other file has changed.
  pub copy_and_delete_moves :
      (fuel : ℕ) (f : K.File) (name d : List ℕ) (b1 b2 room : Buffer) (s : K.State)
      → contents s (path_of f) ≡ some d
      → length d < 2 ^ 31
      → length d / page_size < fuel
      → path_of f ≢ name
      → (s' : K.State) × (copy_and_delete K fuel f name b1 b2 room s ≡ done (pos 0) s')
        × (contents s'
            ≡ update
                (update (contents s) name (some (overlay (or_empty (contents s name)) d)))
                (path_of f)
                none)
  unfolding copy_and_delete if_bad steps
  copy_and_delete_moves fuel f name d b1 b2 room s e small enough apart =
      let (t, u, opened, named_t, made) = file_creat_lem K V H name mode_0644 s in
      let old = or_empty (contents s name) in
      let (v, copies, copy) =
        copy_loop_lem K V H f t d old (rw named_t apart) fuel 0 b1.bytes u small (omega arith)
          (record {
            within = omega arith;
            source = rw made (update_ne (contents s) name (path_of f) _ (λ q. apart (sym q)) ∙ e);
            target = rw (named_t, made) (update_self (contents s) name _);
          }) in
      let at_v : contents v ≡ update (contents s) name (some (overlay old d)) =
        copy ∙ rw (named_t, made) (update-update (contents s) name _ _) in
      let (w, ends, gone) =
        after_copy_lem f t b1 b2 room v d
          (rw at_v (update_ne (contents s) name (path_of f) _ (λ q. apart (sym q)) ∙ e)) in
      (w, rw (opened, copies) ends, gone ∙ rw at_v refl)

  -- Where `d_path` finds no name in the null buffer that `processunlink` gives it, on a healthy volume
  -- `processunlink` of a file stops at an oops, and every file is as it was.
  pub processunlink_oopses :
      ((f : K.File) (n : ℕ) (s : K.State) → K.d_path f none n s ≡ none)
      → (fuel : ℕ) (args : Param) (path d : List ℕ) (s : K.State) → args.fname ≡ some path
      → contents s path ≡ some d
      → (s' : K.State) × (processunlink K fuel args s ≡ oops s') × (contents s' ≡ contents s)
  unfolding processunlink with_buffers move_to_trash trash_name if_null if_bad steps
  processunlink_oopses no_name fuel args path d s given e =
      let (b1, got1) = H.kmalloc_some page_size s in
      let r : K.State = (K.kmalloc page_size s).1 in
      let (b2, got2) = H.kmalloc_some page_size r in
      let q : K.State = (K.kmalloc page_size r).1 in
      let same : contents q ≡ contents s = H.kmalloc_keeps _ _ ∙ H.kmalloc_keeps _ _ in
      let (f, t, opened, named, kept) = file_open_lem K V H path 0 q d (rw same e) in
      let (b3, got3) = H.kmalloc_some (name_room (K.d_name f t)) t in
      (
        (K.kmalloc (name_room (K.d_name f t)) t).1,
        rw (got1, got2, given, opened, got3, no_name) refl,
        H.kmalloc_keeps _ _ ∙ kept ∙ same,
      )
