-- ===== src/Common/Text.antt =====
-- Texts as lists of bytes, and the conversions of `sprintf` that the modules use.
use Prim.Native.Nat.{ℕ, zero, suc, ◌+◌, ◌/◌, ◌%◌, ◌≤◌, ◌<◌}
use Prim.Native.Char.{code}
use Prim.Native.String.{String}
use mathlib.Core.Path.{◌≡◌, ap}
use mathlib.Core.List.{List, [], ◌∷◌, ◌++◌}
use mathlib.Core.Logic.{inl, inr}
use native.Mathlib.Omega.{arith}
use asynchronous_file_system.Common.Tests.{ltb, ◌==◌, if◌then◌else◌, Bool-cases, lt→ltb, ltb→lt}
use asynchronous_file_system.Common.Lists.{length, length-append}
use asynchronous_file_system.Common.Int.{ℤ, pos, negsuc}

abbrev pub codes : String → List ℕ
codes String.[] = []
codes (String.◌∷◌ c s) = code c ∷ codes s

-- The bytes of a C string: those in front of the first NUL.
abbrev pub c_string : List ℕ → List ℕ
c_string [] = []
c_string (b ∷ s) = if b == 0 then [] else b ∷ c_string s

abbrev pub digit : ℕ → ℕ
digit n = b'0' + n

-- Decimal digits. The fuel is above the number.
decimal_from : ℕ → ℕ → List ℕ
decimal_from zero n = []
decimal_from (suc fuel) n =
    let rest = decimal_from fuel (n / 10) ++ (digit (n % 10) ∷ []) in
    if ltb n 10 then digit n ∷ [] else rest

unfoldable pub decimal : ℕ → List ℕ
unfolding decimal_from
decimal n = decimal_from (suc n) n

-- `%d` and `%ld`
unfoldable pub format_d : ℤ → List ℕ
format_d (pos n) = decimal n
format_d (negsuc n) = b'-' ∷ decimal (suc n)

-- `%02d`: a sign counts for the width.
unfoldable pub format_02d : ℤ → List ℕ
format_02d (pos n) = if ltb n 10 then b'0' ∷ decimal n else decimal n
format_02d (negsuc n) = b'-' ∷ decimal (suc n)

decimal_from_small : (f n : ℕ) → n < 10 → decimal_from (suc f) n ≡ digit n ∷ []
unfolding decimal_from
decimal_from_small f n h = rw (lt→ltb n 10 h)

length-decimal_from_large :
    (f n : ℕ) → 10 ≤ n → length (decimal_from (suc f) n) ≡ length (decimal_from f (n / 10)) + 1
unfolding decimal_from
length-decimal_from_large f n h = elim (Bool-cases (ltb n 10)) [
  | inl e ↦ absurd (omega (arith, ltb→lt n 10 e))
  | inr e ↦ rw e (length-append (decimal_from f (n / 10)) (digit (n % 10) ∷ []))
]

-- With `k` digits, from fuel that allows as many rounds.
length-decimal_from_one : (f n : ℕ) → n < 10 → length (decimal_from (suc f) n) ≡ 1
length-decimal_from_one f n h = ap length (decimal_from_small f n h)

length-decimal_from_two : (f n : ℕ) → 10 ≤ n → n < 100 → length (decimal_from (suc (suc f)) n) ≡ 2
length-decimal_from_two f n lo hi = omega (
  arith,
  length-decimal_from_large (suc f) n lo,
  length-decimal_from_one f (n / 10) (omega arith),
)

length-decimal_from_four :
    (f n : ℕ) → 1000 ≤ n → n < 10000 → length (decimal_from (suc (suc (suc (suc f)))) n) ≡ 4
length-decimal_from_four f n lo hi = omega (
  arith,
  length-decimal_from_large (suc (suc (suc f))) n (omega arith),
  length-decimal_from_large (suc (suc f)) (n / 10) (omega arith),
  length-decimal_from_two f (n / 10 / 10) (omega arith) (omega arith),
)

pub decimal_small : (n : ℕ) → n < 10 → decimal n ≡ digit n ∷ []
unfolding decimal
decimal_small n h = decimal_from_small n n h

pub length-decimal_one : (n : ℕ) → n < 10 → length (decimal n) ≡ 1
unfolding decimal
length-decimal_one n h = length-decimal_from_one n n h

pub length-decimal_two : (n : ℕ) → 10 ≤ n → n < 100 → length (decimal n) ≡ 2
unfolding decimal
length-decimal_two zero lo hi = absurd (omega arith)
length-decimal_two (suc n) lo hi = length-decimal_from_two n (suc n) lo hi

pub length-decimal_four : (n : ℕ) → 1000 ≤ n → n < 10000 → length (decimal n) ≡ 4
unfolding decimal
length-decimal_four (suc (suc (suc n))) lo hi = length-decimal_from_four n (suc (suc (suc n))) lo hi
length-decimal_four _ lo hi = absurd (omega arith)

-- A number below a hundred takes two places.
pub length-format_02d : (n : ℕ) → n < 100 → length (format_02d (pos n)) ≡ 2
unfolding format_02d
length-format_02d n h = elim (Bool-cases (ltb n 10)) [
  | inl e ↦ rw e (ap suc (length-decimal_one n (ltb→lt n 10 e)))
  | inr e ↦ rw e (length-decimal_two n (ground arith) h)
]

-- So does a negative number of one digit.
pub length-format_02d_negative : (n : ℕ) → n < 9 → length (format_02d (negsuc n)) ≡ 2
unfolding format_02d
length-format_02d_negative n h = ap suc (length-decimal_one (suc n) (omega arith))
