-- ===== src/Kernel/Monad.antt =====
-- How a function of the modules ends, and the monad that its statements run in.
use asynchronous_file_system.Common.{ℕ, ℤ, pos, minus, Bool, true, false, Option, none, some}

-- A pointer that may be null or carry an error number (`ERR_PTR`).
pub data Pointer (A : Type 0) : Type 0 where
  valid : A → Pointer A
  null : Pointer A
  err_ptr : ℕ → Pointer A

-- `PTR_ERR` of a pointer that is not valid.
abbrev pub ptr_err : {A : Type 0} → Pointer A → ℤ
ptr_err (valid a) = pos 0
ptr_err null = pos 0
ptr_err (err_ptr e) = minus e

-- A function returns, or the kernel stops it at a bad access. `overrun` is an access past
-- the end of an allocation; `unfinished` says that the fuel given to a loop was too small.
pub data Outcome (S A : Type 0) : Type 0 where
  done : A → S → Outcome S A
  oops : S → Outcome S A
  overrun : S → Outcome S A
  unfinished : Outcome S A

abbrev pub bind : {S A B : Type 0} → Outcome S A → (A → S → Outcome S B) → Outcome S B
bind (done a s) f = f a s
bind (oops s) f = oops s
bind (overrun s) f = overrun s
bind unfinished f = unfinished

abbrev pub M : Type 0 → Type 0 → Type 0
M S A = S → Outcome S A

unfoldable pub pure : {S A : Type 0} → A → M S A
pure a s = done a s

infixl 5 ◌>>=◌ ◌>>◌
unfoldable pub ◌>>=◌ : {S A B : Type 0} → M S A → (A → M S B) → M S B
◌>>=◌ m f s = bind (m s) f

unfoldable pub ◌>>◌ : {S B : Type 0} → M S (Unit {0}) → M S B → M S B
unfolding ◌>>=◌
m >> k = m >>= λ _. k

-- A call that returns a value and changes the state, one that only changes it, one that only reads.
unfoldable pub call : {S A : Type 0} → (S → A × S) → M S A
call f s = done (f s).0 (f s).1

unfoldable pub run : {S : Type 0} → (S → S) → M S (Unit {0})
run f s = done tt (f s)

unfoldable pub ask : {S A : Type 0} → (S → A) → M S A
ask f s = done (f s) s

unfoldable pub fault : {S A : Type 0} → M S A
fault s = oops s

-- A pointer that the code follows without a test.
unfoldable pub deref : {S A : Type 0} → Option A → M S A
unfolding fault pure
deref none = fault
deref (some a) = pure a

-- A write that needs the first number of bytes, into an allocation of the second.
unfoldable pub fits : {S : Type 0} → Bool → M S (Unit {0})
fits true s = done tt s
fits false s = overrun s

unfoldable pub out_of_fuel : {S A : Type 0} → M S A
out_of_fuel s = unfinished

-- The branches of an `if`, of a test for a null pointer, and of `if (!p || IS_ERR(p))`.
unfoldable pub choose : {S A : Type 0} → Bool → M S A → M S A → M S A
choose true m n s = m s
choose false m n s = n s

unfoldable pub if_null : {S A B : Type 0} → Option B → M S A → (B → M S A) → M S A
if_null none m f s = m s
if_null (some b) m f s = f b s

unfoldable pub if_bad : {S A B : Type 0} → Pointer B → (Pointer B → M S A) → (B → M S A) → M S A
if_bad (valid b) m f s = f b s
if_bad null m f s = m null s
if_bad (err_ptr e) m f s = m (err_ptr e) s

-- To compute with a `do` block, unfold this.
unfoldable pub steps : Unit {0}
unfolding ◌>>=◌ ◌>>◌ pure call run ask fault deref fits out_of_fuel
steps = tt
