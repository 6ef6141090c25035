-- ===== src/Tests/ProcRuns.antt =====
-- The key's entry at a concrete input.
use asynchronous_file_system.Common.{
  ℕ, ◌≡◌, ◌≢◌, refl, sym, ◌∙◌, ap, ◌⊎◌, inl, inr, pos, ◌==◌, ==_iff, Option, none, some, List, [],
  ◌∷◌, ◌++◌, codes, replicate, Bool-cases, arith,
}
use asynchronous_file_system.Kernel.{Buffer}
use asynchronous_file_system.Kernel.Monad.{done}
use asynchronous_file_system.Kernel.Memory.{Machine, memory_kernel}
use asynchronous_file_system.ProcKey
use asynchronous_file_system.ProcKey.{IsSlab, my_proc_show-write_key}
use asynchronous_file_system.Tests.Machines.{machine}

-- Cleared memory at address 9, if that is not in use.
abbrev grant : ℕ → Option (List ℕ) → Option Buffer
grant n none = some (record { addr = 9; bytes = replicate n 0 })
grant n (some b) = none

abbrev pub kzalloc : ℕ → Machine → Option Buffer × Machine
kzalloc n s = (grant n (s.slab 9), s)

grant_zero :
    (n : ℕ) (o : Option (List ℕ)) (b : Buffer) → grant n o ≡ some b → b.bytes ≡ replicate n 0
grant_zero n none b e = cc
grant_zero n (some c) b e = absurd (cc)

grant_addr :
    (n : ℕ) (o : Option (List ℕ)) (b : Buffer) → grant n o ≡ some b → (o ≡ none) × (b.addr ≡ 9)
grant_addr n none b e = (refl, cc)
grant_addr n (some c) b e = absurd (cc)

fresh : (s : Machine) (x a : ℕ) → s.slab 9 ≡ none → x ≡ 9 → (s.slab a ≢ none) ⊎ (a ≡ 0) → x ≢ a
fresh s x a free e (inl used) same = used (ap s.slab (sym same ∙ e) ∙ free)
fresh s x a free e (inr null) same = omega arith

pub slab : IsSlab memory_kernel kzalloc
slab = record {
  load-store = λ a b s. rw ((==_iff a a).1 refl) refl;
  load-kfree_ne = λ a x s h. elim (Bool-cases (x == a)) [
    | inl e ↦ absurd (h ((==_iff x a).0 e))
    | inr e ↦ rw e refl
  ];
  kzalloc_zero = λ n s b e. grant_zero n (s.slab 9) b e;
  kzalloc_fresh = λ n s b a e used.
      let (free, at) = grant_addr n (s.slab 9) b e in fresh s b.addr a free at used;
}

abbrev new_key : List ℕ
new_key = codes "42"

my_proc_show-write_key_example :
    (s' : Machine) × (ProcKey.my_proc_write memory_kernel kzalloc (λ n s. some new_key) 2 7 machine
      ≡ done (pos 2, 9) s')
    × (ProcKey.my_proc_show memory_kernel 9 s' ≡ done (new_key ++ (10 ∷ [])) s')
my_proc_show-write_key_example =
    my_proc_show-write_key memory_kernel kzalloc (λ n s. some new_key) slab new_key 7 machine
      (record { addr = 9; bytes = replicate 3 0 }) refl refl refl (inl (λ e. cc))
