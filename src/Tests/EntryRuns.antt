-- ===== src/Tests/EntryRuns.antt =====
-- The entries in /proc at a concrete registry.
use asynchronous_file_system.Common.{
  ◌≡◌, ◌≢◌, refl, Bool, true, false, Option, none, some, List, ℕ, update, update_self, update_ne,
}
use asynchronous_file_system.Proc.{Fops, key_fops, queue_len_fops, Proc, IsProc}
use asynchronous_file_system.ProcKey as Key
use asynchronous_file_system.ProcQueueLen as QueueLen
use asynchronous_file_system.ProcEntries.{
  name_of, loads, boot, after, HasEntry, Fops_discrete, Booted-HasEntry,
}

abbrev Registry : Type 0
Registry = List ℕ → Option Fops

-- A name is taken once.
abbrev place : Option Fops → List ℕ → Fops → Registry → Bool × Registry
place none n f s = (true, update s n (some f))
place (some g) n f s = (false, s)

abbrev registry : Proc Registry
registry = record {
  proc_create = λ n f s. place (s n) n f s;
  remove_proc_entry = λ n s. update s n none;
}

abbrev find : List ℕ → Registry → Option Fops
find n s = s n

place_created :
    (o : Option Fops) (n : List ℕ) (f : Fops) (s : Registry)
    → (place o n f s).0 ≡ true
    → (place o n f s).1 n ≡ some f
place_created none n f s e = update_self s n (some f)
place_created (some g) n f s e = absurd (cc)

place_refused :
    (o : Option Fops) (n x : List ℕ) (f : Fops) (s : Registry)
    → (place o n f s).0 ≡ false
    → (place o n f s).1 x ≡ s x
place_refused none n x f s e = absurd (cc)
place_refused (some g) n x f s e = refl

place_other :
    (o : Option Fops) (n x : List ℕ) (f : Fops) (s : Registry) → n ≢ x → (place o n f s).1 x ≡ s x
place_other none n x f s ne = update_ne s n x (some f) ne
place_other (some g) n x f s ne = refl

registry-IsProc : IsProc registry find
registry-IsProc = record {
  created = λ n f s e. place_created (s n) n f s e;
  refused = λ n x f s e. place_refused (s n) n x f s e;
  create_other = λ n x f s ne. place_other (s n) n x f s ne;
  removed = λ n s. update_self s n none;
  remove_other = λ n x s ne. update_ne s n x none ne;
}

abbrev bare : Registry
bare n = none

abbrev filled : Registry
filled =
    update (update bare (name_of key_fops) (some key_fops)) (name_of queue_len_fops)
      (some queue_len_fops)

Booted-HasEntry_example : HasEntry registry find registry-IsProc true queue_len_fops filled
unfolding Key.hello_init QueueLen.hello_init Fops_discrete
Booted-HasEntry_example =
    Booted-HasEntry registry find registry-IsProc
      (after (after (boot bare (λ f. refl)) (loads key_fops refl refl))
        (loads queue_len_fops refl refl))
      queue_len_fops
