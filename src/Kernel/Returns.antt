-- ===== src/Kernel/Returns.antt =====
-- Facts about the value and the state with which a function returns.
use asynchronous_file_system.Common.{◌≡◌, subst, Bool, true, false, Option, none, some}
use asynchronous_file_system.Kernel.Monad.{
  Outcome, done, oops, overrun, unfinished, M, bind, ◌>>=◌, ◌>>◌, pure, run, fault, out_of_fuel,
  choose, if_null, steps,
}

-- A fact about the value and the state with which a function returns, if it does.
abbrev pub OnReturn : {S A : Type 0} → (A → S → Type 0) → Outcome S A → Type 0
OnReturn Q (done a s) = Q a s
OnReturn Q (oops s) = Unit
OnReturn Q (overrun s) = Unit
OnReturn Q unfinished = Unit

pub record Leaves {S A : Type 0} (Q : A → S → Type 0) (m : M S A) : Type 0 where
  pub leaves : (s : S) → OnReturn Q (m s)

pub OnReturn-bind :
    {S A B : Type 0} {Q : A → S → Type 0} (R : B → S → Type 0) (o : Outcome S A) (f : A → M S B)
    → OnReturn Q o
    → ((a : A) (s : S) → Q a s → OnReturn R (f a s))
    → OnReturn R (bind o f)
OnReturn-bind R (done a s) f h k = k a s h
OnReturn-bind R (oops s) f h k = tt
OnReturn-bind R (overrun s) f h k = tt
OnReturn-bind R unfinished f h k = tt

pub Leaves-bind :
    {S A B : Type 0} {Q : A → S → Type 0} {R : B → S → Type 0} {m : M S A} (f : A → M S B)
    → Leaves Q m
    → ((a : A) (s : S) → Q a s → OnReturn R (f a s))
    → Leaves R (m >>= f)
unfolding steps
Leaves-bind {R} {m} f h k = record { leaves = λ s. OnReturn-bind R (m s) f (h.leaves s) k }

pub OnReturn-all : {S A : Type 0} (o : Outcome S A) → OnReturn (λ a s. Unit {0}) o
OnReturn-all (done a s) = tt
OnReturn-all (oops s) = tt
OnReturn-all (overrun s) = tt
OnReturn-all unfinished = tt

pub Leaves-any : {S A : Type 0} (m : M S A) → Leaves (λ a s. Unit {0}) m
Leaves-any m = record { leaves = λ s. OnReturn-all (m s) }

pub Leaves-pure :
    {S A : Type 0} {Q : A → S → Type 0} (a : A) → ((s : S) → Q a s) → Leaves Q (pure a)
unfolding steps
Leaves-pure a h = record { leaves = h }

pub Leaves-out_of_fuel :
    {S A : Type 0} {Q : A → S → Type 0} → Leaves Q (out_of_fuel {S = S} {A = A})
unfolding steps
Leaves-out_of_fuel = record { leaves = λ s. tt }

pub Leaves-run-pure :
    {S A : Type 0} {Q : A → S → Type 0} (f : S → S) (a : A)
    → ((s : S) → Q a (f s))
    → Leaves Q (run f >> pure a)
unfolding steps
Leaves-run-pure f a h = record { leaves = h }

module _ {S B : Type 0} {R : B → S → Type 0} where
  -- What comes first does not matter.
  pub Leaves-last :
      {A : Type 0} (m : M S A) {f : A → M S B} → ((a : A) → Leaves R (f a)) → Leaves R (m >>= f)
  Leaves-last m {f} k = Leaves-bind f (Leaves-any m) λ a s _. (k a).leaves s

  pub Leaves-then : (m : M S (Unit {0})) {n : M S B} → Leaves R n → Leaves R (m >> n)
  unfolding steps
  Leaves-then m k = Leaves-last m (λ _. k)

  pub Leaves-choose : {m n : M S B} (b : Bool) → Leaves R m → Leaves R n → Leaves R (choose b m n)
  unfolding choose
  Leaves-choose true h k = record { leaves = h.leaves }
  Leaves-choose false h k = record { leaves = k.leaves }

  pub Leaves-if_null :
      {A : Type 0} {m : M S B} {f : A → M S B} (o : Option A)
      → Leaves R m
      → ((a : A) → Leaves R (f a))
      → Leaves R (if_null o m f)
  unfolding if_null
  Leaves-if_null none h k = record { leaves = h.leaves }
  Leaves-if_null (some a) h k = record { leaves = (k a).leaves }

  pub Leaves-fault : Leaves R (fault {S = S} {A = B})
  unfolding steps
  Leaves-fault = record { leaves = λ s. tt }

  -- What holds of every return holds of this one.
  pub returned_with : {m : M S B} → Leaves R m → (s s' : S) (b : B) → m s ≡ done b s' → R b s'
  returned_with h s s' b e = subst (OnReturn R) e (h.leaves s)
