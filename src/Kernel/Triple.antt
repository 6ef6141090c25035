-- ===== src/Kernel/Triple.antt =====
-- A program logic for the monad: an invariant of the state that holds at every end, a fault
-- included, and a fact about the value that is returned.
use asynchronous_file_system.Common.{◌≡◌, refl, subst, Bool, true, false, Option, none, some}
use asynchronous_file_system.Kernel.Monad.{
  Outcome, done, oops, overrun, unfinished, Pointer, valid, null, err_ptr, M, bind, ◌>>=◌, ◌>>◌,
  pure, call, run, ask, fault, deref, fits, out_of_fuel, choose, if_null, if_bad, steps,
}

abbrev pub Ends : {S A : Type 0} → (S → Type 0) → (A → Type 0) → Outcome S A → Type 0
Ends I Q (done a s) = I s × Q a
Ends I Q (oops s) = I s
Ends I Q (overrun s) = I s
Ends I Q unfinished = Unit

abbrev pub Any : {A : Type 0} → A → Type 0
Any a = Unit

-- From a state with the invariant, `m` ends in one, and its value has `Q`.
pub record Keeps {S A : Type 0} (I : S → Type 0) (Q : A → Type 0) (m : M S A) : Type 0 where
  pub ends : (s : S) → I s → Ends I Q (m s)

module _ {S : Type 0} {I : S → Type 0} where
  Ends-bind :
      {A B : Type 0} {Q : A → Type 0} {R : B → Type 0} (o : Outcome S A) (f : A → M S B)
      → Ends I Q o
      → ((a : A) → Q a → Keeps I R (f a))
      → Ends I R (bind o f)
  Ends-bind (done a s) f h k = (k a h.1).ends s h.0
  Ends-bind (oops s) f h k = h
  Ends-bind (overrun s) f h k = h
  Ends-bind unfinished f h k = tt

  pub Keeps-bind :
      {A B : Type 0} {Q : A → Type 0} {R : B → Type 0} {m : M S A} {f : A → M S B}
      → Keeps I Q m
      → ((a : A) → Q a → Keeps I R (f a))
      → Keeps I R (m >>= f)
  unfolding steps
  Keeps-bind {m} {f} h k = record { ends = λ s i. Ends-bind (m s) f (h.ends s i) k }

  pub Keeps-then :
      {B : Type 0} {R : B → Type 0} {m : M S (Unit {0})} {k : M S B}
      → Keeps I Any m
      → Keeps I R k
      → Keeps I R (m >> k)
  unfolding steps
  Keeps-then h k = Keeps-bind h (λ _ _. k)

  pub Keeps-pure : {A : Type 0} {Q : A → Type 0} (a : A) → Q a → Keeps I Q (pure a)
  unfolding steps
  Keeps-pure a q = record { ends = λ s i. (i, q) }

  pub Keeps-run : (f : S → S) → ((s : S) → I s → I (f s)) → Keeps I Any (run f)
  unfolding steps
  Keeps-run f h = record { ends = λ s i. (h s i, tt) }

  pub Keeps-call : {A : Type 0} (f : S → A × S) → ((s : S) → I s → I (f s).1) → Keeps I Any (call f)
  unfolding steps
  Keeps-call f h = record { ends = λ s i. (h s i, tt) }

  pub Keeps-call_with :
      {A : Type 0} {Q : A → Type 0} (f : S → A × S)
      → ((s : S) → I s → I (f s).1 × Q (f s).0)
      → Keeps I Q (call f)
  unfolding steps
  Keeps-call_with f h = record { ends = λ s i. h s i }

  pub Keeps-ask : {A : Type 0} (f : S → A) → Keeps I Any (ask f)
  unfolding steps
  Keeps-ask f = record { ends = λ s i. (i, tt) }

  pub Keeps-fault : {A : Type 0} {Q : A → Type 0} → Keeps I Q (fault {S = S} {A = A})
  unfolding steps
  Keeps-fault = record { ends = λ s i. i }

  pub Keeps-out_of_fuel : {A : Type 0} {Q : A → Type 0} → Keeps I Q (out_of_fuel {S = S} {A = A})
  unfolding steps
  Keeps-out_of_fuel = record { ends = λ s i. tt }

  pub Keeps-deref : {A : Type 0} (o : Option A) → Keeps I Any (deref {S = S} o)
  unfolding steps
  Keeps-deref none = Keeps-fault
  Keeps-deref (some a) = Keeps-pure a tt

  pub Keeps-deref_eq : {A : Type 0} (o : Option A) → Keeps I (λ a. o ≡ some a) (deref {S = S} o)
  unfolding steps
  Keeps-deref_eq none = record { ends = λ s i. i }
  Keeps-deref_eq (some a) = record { ends = λ s i. (i, refl) }

  pub Keeps-fits : (b : Bool) → Keeps I Any (fits {S = S} b)
  unfolding steps
  Keeps-fits true = record { ends = λ s i. (i, tt) }
  Keeps-fits false = record { ends = λ s i. i }

  pub Keeps-choose :
      {A : Type 0} {Q : A → Type 0} {m n : M S A} (b : Bool)
      → Keeps I Q m
      → Keeps I Q n
      → Keeps I Q (choose b m n)
  unfolding choose
  Keeps-choose true h k = record { ends = h.ends }
  Keeps-choose false h k = record { ends = k.ends }

  pub Keeps-if_null :
      {A B : Type 0} {Q : A → Type 0} {m : M S A} {f : B → M S A} (o : Option B)
      → Keeps I Q m
      → ((b : B) → Keeps I Q (f b))
      → Keeps I Q (if_null o m f)
  unfolding if_null
  Keeps-if_null none h k = record { ends = h.ends }
  Keeps-if_null (some b) h k = record { ends = (k b).ends }

  -- The pointer's fact `P` is handed to the branch that follows it.
  pub Keeps-if_bad :
      {A B : Type 0} {Q : A → Type 0} {m : Pointer B → M S A} {f : B → M S A} (p : Pointer B)
      → ((r : Pointer B) → Keeps I Q (m r))
      → ((b : B) → p ≡ valid b → Keeps I Q (f b))
      → Keeps I Q (if_bad p m f)
  unfolding if_bad
  Keeps-if_bad (valid b) h k = record { ends = (k b refl).ends }
  Keeps-if_bad null h k = record { ends = (h null).ends }
  Keeps-if_bad (err_ptr e) h k = record { ends = (h (err_ptr e)).ends }

  -- What holds when a run has returned.
  pub Keeps-done :
      {A : Type 0} {Q : A → Type 0} {m : M S A} {s s' : S} {a : A}
      → Keeps I Q m
      → m s ≡ done a s'
      → I s
      → I s'
  Keeps-done {Q} {s} h e i = let e' : Ends I Q (done _ _) = subst (Ends I Q) e (h.ends s i) in e'.0
