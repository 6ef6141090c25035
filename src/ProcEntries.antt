-- ===== src/ProcEntries.antt =====
-- The entries in /proc over any run of loads and unloads of the three modules, and what a task reads
-- and writes through them.
use asynchronous_file_system.Common.{
  ℕ, ◌≡◌, ◌≢◌, ◌∙◌, refl, ℤ, pos, minus, bytes_ne, Bool, true, false, if◌then◌else◌, ite, Option,
  none, some, List, codes,
}
use asynchronous_file_system.Proc.{Fops, key_fops, file_num_fops, queue_len_fops, Proc, IsProc}
use asynchronous_file_system.ProcKey as Key
use asynchronous_file_system.ProcNumber as FileNum
use asynchronous_file_system.ProcQueueLen as QueueLen

abbrev pub name_of : Fops → List ℕ
name_of key_fops = codes "enc_key_file"
name_of file_num_fops = codes "max_file_num"
name_of queue_len_fops = codes "max_queue_len"

unfoldable pub Fops_discrete : (f g : Fops) → Dec (f ≡ g)
Fops_discrete key_fops key_fops = yes refl
Fops_discrete file_num_fops file_num_fops = yes refl
Fops_discrete queue_len_fops queue_len_fops = yes refl
Fops_discrete key_fops file_num_fops = no (λ e. cc)
Fops_discrete key_fops queue_len_fops = no (λ e. cc)
Fops_discrete file_num_fops key_fops = no (λ e. cc)
Fops_discrete file_num_fops queue_len_fops = no (λ e. cc)
Fops_discrete queue_len_fops key_fops = no (λ e. cc)
Fops_discrete queue_len_fops file_num_fops = no (λ e. cc)

name_of_ne : (f g : Fops) → f ≢ g → name_of f ≢ name_of g
name_of_ne key_fops key_fops n = absurd (n refl)
name_of_ne file_num_fops file_num_fops n = absurd (n refl)
name_of_ne queue_len_fops queue_len_fops n = absurd (n refl)
name_of_ne key_fops file_num_fops n = bytes_ne _ _ refl
name_of_ne key_fops queue_len_fops n = bytes_ne _ _ refl
name_of_ne file_num_fops key_fops n = bytes_ne _ _ refl
name_of_ne file_num_fops queue_len_fops n = bytes_ne _ _ refl
name_of_ne queue_len_fops key_fops n = bytes_ne _ _ refl
name_of_ne queue_len_fops file_num_fops n = bytes_ne _ _ refl

module _ {S : Type 0} (P : Proc S) where
  abbrev pub load : Fops → S → ℤ × S
  load key_fops = Key.hello_init P
  load file_num_fops = FileNum.hello_init P
  load queue_len_fops = QueueLen.hello_init P

  abbrev pub unload : Fops → S → S
  unload key_fops = Key.hello_exit P
  unload file_num_fops = FileNum.hello_exit P
  unload queue_len_fops = QueueLen.hello_exit P

  -- The kernel, and which of the modules are in it.
  pub record Loaded : Type 0 where
    pub kernel : S
    pub is_in : Fops → Bool

  abbrev mark : Fops → Bool → (Fops → Bool) → Fops → Bool
  mark f b is_in g = ite (Fops_discrete f g) b (is_in g)

  -- A module whose init function fails is not in the kernel.
  pub data Change (m : Loaded) : Loaded → Type 0 where
    loads :
        (f : Fops)
        → m.is_in f ≡ false
        → (load f m.kernel).0 ≡ pos 0
        → Change m (record { kernel = (load f m.kernel).1; is_in = mark f true m.is_in })
    fails :
        (f : Fops)
        → m.is_in f ≡ false
        → (load f m.kernel).0 ≢ pos 0
        → Change m (record m { kernel = (load f m.kernel).1 })
    unloads :
        (f : Fops)
        → m.is_in f ≡ true
        → Change m (record { kernel = unload f m.kernel; is_in = mark f false m.is_in })

  abbrev result_of : Bool × S → ℤ × S
  result_of (made, s) = (if made then pos 0 else minus 1, s)

  load_lem : (f : Fops) (s : S) → load f s ≡ result_of (P.proc_create (name_of f) f s)
  unfolding Key.hello_init FileNum.hello_init QueueLen.hello_init
  load_lem key_fops s = refl
  load_lem file_num_fops s = refl
  load_lem queue_len_fops s = refl

  unload_lem : (f : Fops) (s : S) → unload f s ≡ P.remove_proc_entry (name_of f) s
  unfolding Key.hello_exit FileNum.hello_exit QueueLen.hello_exit
  unload_lem key_fops s = refl
  unload_lem file_num_fops s = refl
  unload_lem queue_len_fops s = refl

  was_made : (r : Bool × S) → (result_of r).0 ≡ pos 0 → r.0 ≡ true
  was_made (true, s) e = refl
  was_made (false, s) e = absurd (cc)

  was_refused : (r : Bool × S) → (result_of r).0 ≢ pos 0 → r.0 ≡ false
  was_refused (true, s) n = absurd (n refl)
  was_refused (false, s) n = refl

  module _ (entry : List ℕ → S → Option Fops) (L : IsProc P entry) where
    -- From a kernel without these entries on.
    pub data Booted : Loaded → Type 0 where
      boot :
          (k : S)
          → ((f : Fops) → entry (name_of f) k ≡ none)
          → Booted (record { kernel = k; is_in = λ f. false })
      after : {m m' : Loaded} → Booted m → Change m m' → Booted m'

    abbrev pub HasEntry : Bool → Fops → S → Type 0
    HasEntry b f k = entry (name_of f) k ≡ (if b then some f else none)

    abbrev Agrees : Loaded → Type 0
    Agrees m = (f : Fops) → HasEntry (m.is_in f) f m.kernel

    Agrees-load :
        (m : Loaded) (f g : Fops) (d : Dec (f ≡ g))
        → Agrees m
        → (load f m.kernel).0 ≡ pos 0
        → HasEntry (ite d true (m.is_in g)) g (load f m.kernel).1
    Agrees-load m f g (yes same) a e =
        let made =
          was_made (P.proc_create (name_of f) f m.kernel) (rw (load_lem f m.kernel) at e) in
        rw (load_lem f m.kernel, ← same) (L.created (name_of f) f m.kernel made)
    Agrees-load m f g (no other) a e =
        rw (load_lem f m.kernel)
          (L.create_other (name_of f) (name_of g) f m.kernel (name_of_ne f g other) ∙ a g)

    Agrees-unload :
        (m : Loaded) (f g : Fops) (d : Dec (f ≡ g))
        → Agrees m
        → HasEntry (ite d false (m.is_in g)) g (unload f m.kernel)
    Agrees-unload m f g (yes same) a =
        rw (unload_lem f m.kernel, ← same) (L.removed (name_of f) m.kernel)
    Agrees-unload m f g (no other) a =
        rw (unload_lem f m.kernel)
          (L.remove_other (name_of f) (name_of g) m.kernel (name_of_ne f g other) ∙ a g)

    Agrees-Change : {m m' : Loaded} → Agrees m → Change m m' → Agrees m'
    Agrees-Change {m} a (Change.loads f out e) g = Agrees-load m f g (Fops_discrete f g) a e
    Agrees-Change {m} a (Change.fails f out n) g =
        let not_made =
          was_refused (P.proc_create (name_of f) f m.kernel) (rw (load_lem f m.kernel) at n) in
        rw (load_lem f m.kernel) (L.refused (name_of f) (name_of g) f m.kernel not_made ∙ a g)
    Agrees-Change {m} a (Change.unloads f inside) g = Agrees-unload m f g (Fops_discrete f g) a

    -- From a kernel without their entries on, over any loads and unloads of the three modules, in any
    -- order, the failed loads included: each module's entry is in /proc, with its own operations, exactly
    -- while the module is in the kernel.
    pub Booted-HasEntry : {m : Loaded} → Booted m → (f : Fops) → HasEntry (m.is_in f) f m.kernel
    Booted-HasEntry (boot k bare) f = bare f
    Booted-HasEntry (after r c) f = Agrees-Change (Booted-HasEntry r) c f
