-- ===== src/Unlink/Frame.antt =====
-- `processunlink` leaves alone every file but its input and those in the trash folder.
use asynchronous_file_system.Common.{
  ℕ, zero, suc, ◌≡◌, ◌≢◌, sym, ap, ◌∙◌, ℤ, pos, Option, none, some, List, codes, take,
}
use asynchronous_file_system.Param.{Param}
use asynchronous_file_system.Kernel.{Kernel, Buffer}
use asynchronous_file_system.Kernel.Monad.{pure, run, ◌>>◌}
use asynchronous_file_system.Kernel.Volume.{Volume}
use asynchronous_file_system.Kernel.Contained.{IsContained, Untouched}
use asynchronous_file_system.Kernel.Triple.{
  Keeps, Any, Keeps-bind, Keeps-then, Keeps-pure, Keeps-ask, Keeps-out_of_fuel, Keeps-deref,
  Keeps-fits, Keeps-choose, Keeps-if_null, Keeps-if_bad, Keeps-deref_eq,
}
use asynchronous_file_system.FileIo.Frame.{
  Keeps-kmalloc, Keeps-kfree, Keeps-file_close, Keeps-file_open, Keeps-file_creat, Keeps-file_read,
  Keeps-file_write, Keeps-delete_input,
}
use asynchronous_file_system.TrashName.Bounds.{take-stamp}
use asynchronous_file_system.Unlink.{
  CopyEnd, read_error, copied, copy_loop, after_copy, trash_name, copy_and_delete, move_to_trash,
  with_buffers, processunlink,
}

-- The name of a file in the trash folder.
abbrev pub IsTrash : List ℕ → Type 0
IsTrash p = take 14 p ≡ codes "/usr/trashbin/"

module _ (K : Kernel) (V : Volume K) (W : IsContained K V) (q : List ℕ) (c : Option (List ℕ)) where
  open V use {path_of}

  abbrev I : K.State → Type 0
  I = Untouched K V q c

  Keeps-copy_loop :
      (fuel : ℕ) (f t : K.File) (buf : List ℕ) (pagesread total : ℤ)
      → q ≢ path_of t
      → Keeps I Any (copy_loop K fuel f t buf pagesread total)
  unfolding copy_loop
  Keeps-copy_loop zero f t buf pagesread total other = Keeps-out_of_fuel
  Keeps-copy_loop (suc fuel) f t buf pagesread total other =
      Keeps-bind (Keeps-file_read K V W q c f _ buf _) λ (n, bytes) _.
        Keeps-choose _ (Keeps-pure _ tt) (
          Keeps-bind (Keeps-file_write K V W q c t _ bytes _ other)
            λ w _. Keeps-choose _ (Keeps-copy_loop fuel f t bytes _ _ other) (Keeps-pure _ tt))

  frees : (a b : ℕ) (err : ℤ) → Keeps I Any (do run (K.kfree a); run (K.kfree b); pure err)
  frees a b err =
      Keeps-then (Keeps-kfree K V W q c a) (Keeps-then (Keeps-kfree K V W q c b) (Keeps-pure _ tt))

  Keeps-after_copy :
      (end : CopyEnd) (f t : K.File) (b1 b2 name : Buffer)
      → q ≢ path_of f
      → Keeps I Any (after_copy K end f t b1 b2 name)
  unfolding after_copy
  Keeps-after_copy read_error f t b1 b2 name other = Keeps-then (Keeps-file_close K V W q c t) (
      Keeps-then (Keeps-file_close K V W q c f) (
        Keeps-then (Keeps-kfree K V W q c _) (
          Keeps-then (Keeps-kfree K V W q c _)
            (Keeps-then (Keeps-kfree K V W q c _) (Keeps-pure _ tt)))))
  Keeps-after_copy copied f t b1 b2 name other =
      Keeps-bind (Keeps-delete_input K V W q c f other) λ err _.
        Keeps-then (Keeps-file_close K V W q c t)
          (Keeps-then (Keeps-kfree K V W q c _) (frees b1.addr b2.addr err))

  Keeps-trash_name : (f : K.File) → Keeps I IsTrash (trash_name K f)
  unfolding trash_name
  Keeps-trash_name f = Keeps-bind (Keeps-ask _) λ get_time _. Keeps-bind (Keeps-ask _) λ d_name _.
      Keeps-bind (Keeps-ask _) λ found _.
        Keeps-bind (Keeps-deref found)
          λ path _. Keeps-then (Keeps-fits _) (Keeps-pure _ (take-stamp _ _ _))

  Keeps-move_to_trash :
      (fuel : ℕ) (f : K.File) (b1 b2 : Buffer)
      → q ≢ path_of f
      → ¬ IsTrash q
      → Keeps I Any (move_to_trash K fuel f b1 b2)
  unfolding move_to_trash copy_and_delete
  Keeps-move_to_trash fuel f b1 b2 other outside = Keeps-bind (Keeps-ask _) λ d_name _.
      Keeps-bind (Keeps-kmalloc K V W q c _) λ room _.
        Keeps-if_null room
          (Keeps-then (Keeps-file_close K V W q c f) (frees b1.addr b2.addr (pos 0)))
          λ r. Keeps-bind (Keeps-trash_name f) λ name in_trash.
            Keeps-bind
              (Keeps-file_creat K V W q c name _ (λ e. outside (ap (take 14) e ∙ in_trash)))
              λ opened named.
                Keeps-if_bad opened
                  (λ _. Keeps-then (Keeps-file_close K V W q c f) (
                    Keeps-then (Keeps-kfree K V W q c _) (
                      Keeps-then (Keeps-kfree K V W q c _)
                        (Keeps-then (Keeps-kfree K V W q c _) (Keeps-pure _ tt)))))
                  λ t e.
                    Keeps-bind
                      (Keeps-copy_loop fuel f t b1.bytes _ _
                        (λ same. outside (ap (take 14) (same ∙ named t e) ∙ in_trash)))
                      λ end _. Keeps-after_copy end f t b1 b2 r other

  Keeps-with_buffers :
      (fuel : ℕ) (args : Param) (tempbuf1 tempbuf2 : Option Buffer)
      → args.fname ≢ some q
      → ¬ IsTrash q
      → Keeps I Any (with_buffers K fuel args tempbuf1 tempbuf2)
  unfolding with_buffers
  Keeps-with_buffers fuel args none b other outside = Keeps-pure _ tt
  Keeps-with_buffers fuel args (some a) none other outside = Keeps-pure _ tt
  Keeps-with_buffers fuel args (some a) (some b) other outside =
      Keeps-bind (Keeps-deref_eq args.fname) λ fname given.
        Keeps-bind (Keeps-file_open K V W q c fname _) λ opened named.
          Keeps-if_bad opened (λ _. frees a.addr b.addr _)
            λ f e.
              Keeps-move_to_trash fuel f a b
                (λ same. other (given ∙ ap some (sym (same ∙ named f e)))) outside

  -- Whatever fails and wherever the run stops, a file that is neither the input nor in the trash
  -- folder holds what it held.
  pub Keeps-processunlink :
      (fuel : ℕ) (args : Param)
      → args.fname ≢ some q
      → ¬ IsTrash q
      → Keeps (Untouched K V q c) Any (processunlink K fuel args)
  unfolding processunlink
  Keeps-processunlink fuel args other outside = Keeps-bind (Keeps-kmalloc K V W q c _) λ a _.
      Keeps-bind (Keeps-kmalloc K V W q c _) λ b _. Keeps-with_buffers fuel args a b other outside
