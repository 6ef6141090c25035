-- ===== src/FileIo/Frame.antt =====
-- The helpers leave every other file alone.
use asynchronous_file_system.Common.{ℕ, ◌≡◌, ◌≢◌, ◌∙◌, ap, Option, List}
use asynchronous_file_system.Kernel.{Kernel}
use asynchronous_file_system.Kernel.Constants.{o_rdonly, o_wronly_creat}
use asynchronous_file_system.Kernel.Monad.{Pointer, valid, run, call}
use asynchronous_file_system.Kernel.Volume.{Volume}
use asynchronous_file_system.Kernel.Contained.{IsContained, Untouched}
use asynchronous_file_system.Kernel.Triple.{
  Keeps, Any, Keeps-bind, Keeps-then, Keeps-pure, Keeps-run, Keeps-call, Keeps-call_with, Keeps-ask,
}
use asynchronous_file_system.FileIo.{file_open, file_close, file_read, file_write, delete_input}

module _ (K : Kernel) (V : Volume K) where
  open V use {path_of}

  -- A file that is opened has the name that was asked for.
  abbrev pub Named : List ℕ → Pointer K.File → Type 0
  Named p r = (f : K.File) → r ≡ valid f → path_of f ≡ p

module _ (K : Kernel) (V : Volume K) (W : IsContained K V) (q : List ℕ) (c : Option (List ℕ)) where
  open V use {contents, path_of}

  abbrev pub I : K.State → Type 0
  I = Untouched K V q c

  pub by_equation : {s t : K.State} → contents t ≡ contents s → I s → I t
  by_equation e i = ap (λ (f : List ℕ → Option (List ℕ)). f q) e ∙ i

  pub Keeps-set_fs : (l : ℕ) → Keeps I Any (run (K.set_fs l))
  Keeps-set_fs l = Keeps-run _ λ s i. by_equation (W.set_fs_keeps l s) i

  pub Keeps-kmalloc : (n : ℕ) → Keeps I Any (call (K.kmalloc n))
  Keeps-kmalloc n = Keeps-call _ λ s i. by_equation (W.kmalloc_keeps n s) i

  pub Keeps-kfree : (a : ℕ) → Keeps I Any (run (K.kfree a))
  Keeps-kfree a = Keeps-run _ λ s i. by_equation (W.kfree_keeps a s) i

  pub Keeps-file_close : (f : K.File) → Keeps I Any (file_close K f)
  unfolding file_close
  Keeps-file_close f = Keeps-run _ λ s i. by_equation (W.close_keeps f s) i

  pub Keeps-file_open :
      (p : List ℕ) (rights : ℕ) → Keeps I (Named K V p) (file_open K p o_rdonly rights)
  unfolding file_open
  Keeps-file_open p rights = Keeps-bind (Keeps-ask _) λ _ _. Keeps-then (Keeps-set_fs _) (
      Keeps-call_with _
        λ s i. (by_equation (W.open_keeps p rights s) i, λ f e. W.open_path p _ rights s f e))

  pub Keeps-file_creat :
      (p : List ℕ) (rights : ℕ)
      → q ≢ p
      → Keeps I (Named K V p) (file_open K p o_wronly_creat rights)
  unfolding file_open
  Keeps-file_creat p rights other = Keeps-bind (Keeps-ask _) λ _ _. Keeps-then (Keeps-set_fs _) (
      Keeps-call_with _
        λ s i. (W.creat_other p rights s q other ∙ i, λ f e. W.open_path p _ rights s f e))

  pub Keeps-file_read :
      (f : K.File) (o : ℕ) (buf : List ℕ) (n : ℕ) → Keeps I Any (file_read K f o buf n)
  unfolding file_read
  Keeps-file_read f o buf n = Keeps-bind (Keeps-ask _) λ _ _. Keeps-then (Keeps-set_fs _) (
      Keeps-bind (Keeps-call _ λ s i. by_equation (W.read_keeps f buf n o s) i)
        λ r _. Keeps-then (Keeps-set_fs _) (Keeps-pure _ tt))

  pub Keeps-file_write :
      (f : K.File) (o : ℕ) (buf : List ℕ) (n : ℕ)
      → q ≢ path_of f
      → Keeps I Any (file_write K f o buf n)
  unfolding file_write
  Keeps-file_write f o buf n other = Keeps-bind (Keeps-ask _) λ _ _. Keeps-then (Keeps-set_fs _) (
      Keeps-bind (Keeps-call _ λ s i. W.write_other f _ o s q other ∙ i)
        λ r _. Keeps-then (Keeps-set_fs _) (Keeps-pure _ tt))

  pub Keeps-delete_input : (f : K.File) → q ≢ path_of f → Keeps I Any (delete_input K f)
  unfolding delete_input
  Keeps-delete_input f other = Keeps-then (Keeps-file_close f) (
      Keeps-then (Keeps-run _ λ s i. by_equation (W.lock_keeps f s) i) (
        Keeps-bind (Keeps-call _ λ s i. W.unlink_other f s q other ∙ i) λ err _.
          Keeps-then (Keeps-run _ λ s i. by_equation (W.unlock_keeps f s) i) (Keeps-pure _ tt)))
