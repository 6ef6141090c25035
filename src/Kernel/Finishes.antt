-- ===== src/Kernel/Finishes.antt =====
-- Functions that never run out of fuel, whatever the kernel's calls give.
use asynchronous_file_system.Common.{◌≡◌, refl, Bool, true, false, Option, none, some}
use asynchronous_file_system.Kernel.Monad.{
  Outcome, done, oops, overrun, unfinished, Pointer, valid, null, err_ptr, M, bind, ◌>>=◌, ◌>>◌,
  pure, call, run, ask, fault, deref, fits, choose, if_null, if_bad, steps,
}

abbrev pub IsFinished : {S A : Type 0} → Outcome S A → Type 0
IsFinished (done a s) = Unit
IsFinished (oops s) = Unit
IsFinished (overrun s) = Unit
IsFinished unfinished = ⊥

pub record Finishes {S A : Type 0} (m : M S A) : Type 0 where
  pub ends : (s : S) → IsFinished (m s)

module _ {S : Type 0} where
  IsFinished-bind :
      {A B : Type 0} (o : Outcome S A) (f : A → M S B)
      → IsFinished o
      → ((a : A) → Finishes (f a))
      → IsFinished (bind o f)
  IsFinished-bind (done a s) f h k = (k a).ends s
  IsFinished-bind (oops s) f h k = tt
  IsFinished-bind (overrun s) f h k = tt
  IsFinished-bind unfinished f h k = h

  pub Finishes-bind :
      {A B : Type 0} (m : M S A) (f : A → M S B)
      → Finishes m
      → ((a : A) → Finishes (f a))
      → Finishes (m >>= f)
  unfolding steps
  Finishes-bind m f h k = record { ends = λ s. IsFinished-bind (m s) f (h.ends s) k }

  pub Finishes-then :
      {B : Type 0} (m : M S (Unit {0})) (k : M S B) → Finishes m → Finishes k → Finishes (m >> k)
  unfolding steps
  Finishes-then m k h g = Finishes-bind m (λ _. k) h (λ _. g)

  pub Finishes-pure : {A : Type 0} (a : A) → Finishes (pure {S = S} a)
  unfolding steps
  Finishes-pure a = record { ends = λ s. tt }

  pub Finishes-call : {A : Type 0} (f : S → A × S) → Finishes (call f)
  unfolding steps
  Finishes-call f = record { ends = λ s. tt }

  pub Finishes-run : (f : S → S) → Finishes (run f)
  unfolding steps
  Finishes-run f = record { ends = λ s. tt }

  pub Finishes-ask : {A : Type 0} (f : S → A) → Finishes (ask f)
  unfolding steps
  Finishes-ask f = record { ends = λ s. tt }

  pub Finishes-fault : {A : Type 0} → Finishes (fault {S = S} {A = A})
  unfolding steps
  Finishes-fault = record { ends = λ s. tt }

  pub Finishes-deref : {A : Type 0} (o : Option A) → Finishes (deref {S = S} o)
  unfolding steps
  Finishes-deref none = Finishes-fault
  Finishes-deref (some a) = Finishes-pure a

  pub Finishes-fits : (b : Bool) → Finishes (fits {S = S} b)
  unfolding steps
  Finishes-fits true = record { ends = λ s. tt }
  Finishes-fits false = record { ends = λ s. tt }

  pub Finishes-choose :
      {A : Type 0} (b : Bool) (m n : M S A)
      → (b ≡ true → Finishes m)
      → (b ≡ false → Finishes n)
      → Finishes (choose b m n)
  unfolding choose
  Finishes-choose true m n h k = record { ends = (h refl).ends }
  Finishes-choose false m n h k = record { ends = (k refl).ends }

  -- Of a choice whose test is known, only the branch taken has to end.
  pub IsFinished-choose :
      {A : Type 0} (b : Bool) (m n : M S A) (s : S)
      → b ≡ false
      → Finishes n
      → IsFinished (choose b m n s)
  unfolding choose
  IsFinished-choose true m n s e h = cc
  IsFinished-choose false m n s e h = h.ends s

  pub Finishes-if_null :
      {A B : Type 0} (o : Option B) (m : M S A) (f : B → M S A)
      → Finishes m
      → ((b : B) → Finishes (f b))
      → Finishes (if_null o m f)
  unfolding if_null
  Finishes-if_null none m f h k = record { ends = h.ends }
  Finishes-if_null (some b) m f h k = record { ends = (k b).ends }

  pub Finishes-if_bad :
      {A B : Type 0} (p : Pointer B) (m : Pointer B → M S A) (f : B → M S A)
      → ((q : Pointer B) → Finishes (m q))
      → ((b : B) → Finishes (f b))
      → Finishes (if_bad p m f)
  unfolding if_bad
  Finishes-if_bad (valid b) m f h k = record { ends = (k b).ends }
  Finishes-if_bad null m f h k = record { ends = (h null).ends }
  Finishes-if_bad (err_ptr e) m f h k = record { ends = (h (err_ptr e)).ends }

pub ruleset finishes_rules = (
  Finishes-bind, Finishes-then, Finishes-pure, Finishes-call, Finishes-run, Finishes-ask,
  Finishes-fault, Finishes-deref, Finishes-fits, Finishes-choose, Finishes-if_null, Finishes-if_bad,
)
