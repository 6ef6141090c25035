-- ===== src/Modules/Sysptr.antt =====
-- The pointer `sysptr` over any run of loads and unloads.
use asynchronous_file_system.Common.{
  ℕ, ◌≡◌, refl, ℤ, pos, Bool, true, false, Option, none, some, ◌⊎◌, inl, inr, sym, ◌∙◌, ite,
  ite-yes, ite-no,
}
use asynchronous_file_system.Kernel.{Kernel}
use asynchronous_file_system.Kernel.Monad.{done}
use asynchronous_file_system.Kernel.Returns.{
  Leaves, Leaves-last, Leaves-then, Leaves-pure, Leaves-choose, Leaves-if_null, Leaves-fault,
  returned_with,
}
use asynchronous_file_system.Trashbin.{Directories}
use asynchronous_file_system.Modules.{
  Call, xclone2, xclone2async, xclone2_myorg, set_sysptr, clear_sysptr, Threads, init_sys_xclone2,
  exit_sys_xclone2, init_sys_xclone2async, exit_sys_xclone2async,
}
use asynchronous_file_system.Older as Older

-- What the kernel holds, `sysptr`, the head node of the work queue, and the modules that are in the
-- kernel, each by its function.
pub record Modules (S : Type 0) : Type 0 where
  pub kernel : S
  pub sysptr : Option Call
  pub head : Option ℕ
  pub is_in : Call → Bool

unfoldable pub Call_discrete : (c d : Call) → Dec (c ≡ d)
Call_discrete xclone2 xclone2 = yes refl
Call_discrete xclone2async xclone2async = yes refl
Call_discrete xclone2_myorg xclone2_myorg = yes refl
Call_discrete xclone2 xclone2async = no (λ e. cc)
Call_discrete xclone2 xclone2_myorg = no (λ e. cc)
Call_discrete xclone2async xclone2 = no (λ e. cc)
Call_discrete xclone2async xclone2_myorg = no (λ e. cc)
Call_discrete xclone2_myorg xclone2 = no (λ e. cc)
Call_discrete xclone2_myorg xclone2async = no (λ e. cc)

abbrev pub mark : Call → Bool → (Call → Bool) → Call → Bool
mark c b is_in d = ite (Call_discrete c d) b (is_in d)

module _ (K : Kernel) (D : Directories K.State) (T : Threads K.State) where
  -- A load or an unload that returns, or anything else that the kernel does between them.
  pub data Change (m : Modules K.State) : Modules K.State → Type 0 where
    load_sync :
        {r : ℤ} {p : Option Call} {k : K.State}
        → m.is_in xclone2 ≡ false
        → init_sys_xclone2 K D m.sysptr m.kernel ≡ done (r, p) k
        → Change m (record m { kernel = k; sysptr = p; is_in = mark xclone2 true m.is_in })
    unload_sync :
        {p : Option Call} {k : K.State}
        → m.is_in xclone2 ≡ true
        → exit_sys_xclone2 K D m.sysptr m.kernel ≡ done p k
        → Change m (record m { kernel = k; sysptr = p; is_in = mark xclone2 false m.is_in })
    load_async :
        {r : ℤ} {p : Option Call} {h : Option ℕ} {k : K.State}
        → m.is_in xclone2async ≡ false
        → init_sys_xclone2async K D T m.sysptr m.kernel ≡ done (r, p, h) k
        → Change m
            (record { kernel = k; sysptr = p; head = h; is_in = mark xclone2async true m.is_in })
    unload_async :
        (in_ring : Bool) {p : Option Call} {k : K.State}
        → m.is_in xclone2async ≡ true
        → exit_sys_xclone2async K D T m.head in_ring m.sysptr m.kernel ≡ done p k
        → Change m (record {
          kernel = k;
          sysptr = p;
          head = none;
          is_in = mark xclone2async false m.is_in;
        })
    load_myorg :
        m.is_in xclone2_myorg ≡ false
        → Change m (record m {
          sysptr = (Older.init_sys_xclone2 m.sysptr).1;
          is_in = mark xclone2_myorg true m.is_in;
        })
    unload_myorg :
        m.is_in xclone2_myorg ≡ true
        → Change m (record m {
          sysptr = Older.exit_sys_xclone2 m.sysptr;
          is_in = mark xclone2_myorg false m.is_in;
        })
    others : {k : K.State} → Change m (record m { kernel = k })

  -- At boot no module is in, and the pointer is null.
  pub data Booted : Modules K.State → Type 0 where
    boot :
        (k : K.State)
        → Booted (record { kernel = k; sysptr = none; head = none; is_in = λ c. false })
    after : {m m' : Modules K.State} → Booted m → Change m m' → Booted m'

  -- The module whose function the pointer holds is in the kernel.
  abbrev IsOwned : Option Call → (Call → Bool) → Type 0
  IsOwned p is_in = (c : Call) → p ≡ some c → is_in c ≡ true

  clear-none : (p : Option Call) → clear_sysptr p ≡ none
  unfolding clear_sysptr
  clear-none none = refl
  clear-none (some c) = refl

  Leaves-exit : (p : Option Call) → Leaves (λ p' s. p' ≡ none) (exit_sys_xclone2 K D p)
  unfolding exit_sys_xclone2
  Leaves-exit p = Leaves-pure _ (λ s. clear-none p)

  Leaves-exit_async :
      (h : Option ℕ) (b : Bool) (p : Option Call)
      → Leaves (λ p' s. p' ≡ none) (exit_sys_xclone2async K D T h b p)
  unfolding exit_sys_xclone2async
  Leaves-exit_async h b p =
      Leaves-if_null h Leaves-fault
        λ node. Leaves-choose b (Leaves-then _ (Leaves-pure _ (λ s. clear-none p))) Leaves-fault

  Leaves-init :
      (p : Option Call)
      → Leaves (λ r s. (r.0 ≡ pos 0) × (r.1 ≡ set_sysptr xclone2 p)) (init_sys_xclone2 K D p)
  unfolding init_sys_xclone2
  Leaves-init p = Leaves-last _ λ err. Leaves-pure _ (λ s. (refl, refl))

  -- An error of `initialise_wq` leaves the pointer alone.
  Leaves-init_async :
      (p : Option Call)
      → Leaves
          (λ r s. (r.0 ≡ pos 0) × ((r.1 ≡ set_sysptr xclone2async p) ⊎ (r.1 ≡ p)))
          (init_sys_xclone2async K D T p)
  unfolding init_sys_xclone2async
  Leaves-init_async p = Leaves-last _ λ err1. Leaves-last _ λ (err, head).
      Leaves-choose _ (Leaves-pure _ (λ s. (refl, inl refl)))
        (Leaves-pure _ (λ s. (refl, inr refl)))

  set_sysptr-eq-some :
      (c : Call) (p : Option Call) (d : Call) → set_sysptr c p ≡ some d → (c ≡ d) ⊎ (p ≡ some d)
  unfolding set_sysptr
  set_sysptr-eq-some c none d g = inl (cc)
  set_sysptr-eq-some c (some x) d g = inr g

  IsOwned-none : (p : Option Call) (is_in : Call → Bool) → p ≡ none → IsOwned p is_in
  IsOwned-none p is_in e c g = absurd (cc)

  -- Loading the module of `c` gives the pointer to `c` or leaves it.
  module _ (c : Call) (p p' : Option Call) (is_in : Call → Bool) (h : IsOwned p is_in) where
    IsOwned-left : p' ≡ p → IsOwned p' (mark c true is_in)
    IsOwned-left e d g = elim (Call_discrete c d) [
      | yes same ↦ ite-yes (Call_discrete c d) same true (is_in d)
      | no ne ↦ ite-no (Call_discrete c d) ne true (is_in d) ∙ h d (sym e ∙ g)
    ]

    IsOwned-load : p' ≡ set_sysptr c p → IsOwned p' (mark c true is_in)
    IsOwned-load e d g = elim (set_sysptr-eq-some c p d (sym e ∙ g)) [
      | inl same ↦ ite-yes (Call_discrete c d) same true (is_in d)
      | inr before ↦ elim (Call_discrete c d) [
        | yes same ↦ ite-yes (Call_discrete c d) same true (is_in d)
        | no ne ↦ ite-no (Call_discrete c d) ne true (is_in d) ∙ h d before
      ]
    ]

  IsOwned-Change :
      {m m' : Modules K.State} → Change m m' → IsOwned m.sysptr m.is_in → IsOwned m'.sysptr m'.is_in
  unfolding Older.init_sys_xclone2 Older.exit_sys_xclone2
  IsOwned-Change {m} (load_sync {r = r} {p = p} {k = k} g e) h =
      IsOwned-load xclone2 m.sysptr p m.is_in h
        (returned_with (Leaves-init m.sysptr) m.kernel k (r, p) e).1
  IsOwned-Change {m} (load_async {r = r} {p = p} {h = head} {k = k} g e) h =
      elim (returned_with (Leaves-init_async m.sysptr) m.kernel k (r, p, head) e).1 [
        | inl given ↦ IsOwned-load xclone2async m.sysptr p m.is_in h given
        | inr kept ↦ IsOwned-left xclone2async m.sysptr p m.is_in h kept
      ]
  IsOwned-Change {m} (load_myorg g) h = IsOwned-load xclone2_myorg m.sysptr _ m.is_in h refl
  IsOwned-Change {m} (unload_sync {p = p} {k = k} g e) h =
      IsOwned-none p _ (returned_with (Leaves-exit m.sysptr) m.kernel k p e)
  IsOwned-Change {m} (unload_async b {p = p} {k = k} g e) h =
      IsOwned-none p _ (returned_with (Leaves-exit_async m.head b m.sysptr) m.kernel k p e)
  IsOwned-Change {m} (unload_myorg g) h = IsOwned-none _ _ (clear-none m.sysptr)
  IsOwned-Change others h = h

  IsOwned-Booted : {m : Modules K.State} → Booted m → IsOwned m.sysptr m.is_in
  IsOwned-Booted (boot k) = IsOwned-none none _ refl
  IsOwned-Booted (after r c) = IsOwned-Change c (IsOwned-Booted r)

  -- From boot on, after any loads and unloads of the three modules that return, in any order and
  -- whatever fails in them, a system call pointer that is not null points into a module that is in the
  -- kernel.
  pub Booted-IsOwned :
      {m : Modules K.State} (c : Call) → Booted m → m.sysptr ≡ some c → m.is_in c ≡ true
  Booted-IsOwned c r = IsOwned-Booted r c
