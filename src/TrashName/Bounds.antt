-- ===== src/TrashName/Bounds.antt =====
-- How long the name is, and that it lies in the trash folder.
use asynchronous_file_system.Common.{
  ℕ, ◌+◌, ◌-◌, ◌*◌, ◌/◌, ◌%◌, ◌^◌, ◌≤◌, ◌<◌, ◌≡◌, refl, ◌∙◌, ◌↔◌, inl, inr, pos, ◌+ℤ◌, ◌-ℤ◌, rem_ℤ,
  quot_ℤ, to_int_small, List, ◌++◌, codes, format_d, format_02d, length, take, length-append,
  Bool-cases, leb, sub_ℕ, length-format_02d, length-format_02d_negative, length-decimal_four, arith,
}
use asynchronous_file_system.Kernel.{Tm}
use asynchronous_file_system.TrashName.{minute, hour, stamp, name_room}

-- A date from 1900 to 9999.
pub record IsDate (tm : Tm) : Type 0 where
  pub year : ℕ
  pub month : ℕ
  pub day : ℕ
  pub tm_year-eq : tm.tm_year ≡ pos year
  pub tm_mon-eq : tm.tm_mon ≡ pos month
  pub tm_mday-eq : tm.tm_mday ≡ pos day
  pub year-lt : year < 8100
  pub month-lt : month < 12
  pub day-lt : day < 32

length-minute : (t : ℕ) → t < 60 * 2 ^ 31 → length (format_02d (minute t)) ≡ 2
unfolding minute rem_ℤ
length-minute t h =
    rw (to_int_small (t / 60) (omega arith)) (length-format_02d (t / 60 % 60) (omega arith))

-- An hour from 0 to 23 less the four hours of the local time.
length-format_02d_shifted : (n : ℕ) → n < 24 → length (format_02d (pos n -ℤ pos 4)) ≡ 2
unfolding ◌-ℤ◌
length-format_02d_shifted n h = elim (Bool-cases (leb 4 (n + 0))) [
  | inl e ↦ rw e (length-format_02d (n + 0 - 4) (omega arith))
  | inr e ↦ rw e (length-format_02d_negative (4 - (n + 0) - 1) (omega arith))
]

length-hour : (t : ℕ) → t < 60 * 2 ^ 31 → length (format_02d (hour t)) ≡ 2
unfolding hour rem_ℤ quot_ℤ
length-hour t h =
    rw (to_int_small (t / 60) (omega arith))
      (length-format_02d_shifted (t / 60 / 60 % 24) (omega arith))

length-year : (y : ℕ) → y < 8100 → length (format_d (pos y +ℤ pos 1900)) ≡ 4
unfolding ◌+ℤ◌ format_d
length-year y h = rw year (length-decimal_four (y + 1900) (omega arith) (omega arith))
  where
    year : sub_ℕ (y + 1900) 0 ≡ pos (y + 1900)
    year = ground arith

-- The stamp adds 27 bytes to the root.
pub length-stamp :
    (root : List ℕ) (tm : Tm) (t : ℕ)
    → IsDate tm
    → t < 60 * 2 ^ 31
    → length (stamp root tm t) ≡ length root + 27
unfolding stamp
length-stamp root tm t date h =
    rw (date.tm_year-eq, date.tm_mon-eq, date.tm_mday-eq)
      (simp length-append (
        omega (
          arith,
          length-year date.year date.year-lt,
          length-format_02d date.month (omega arith),
          length-format_02d date.day (omega arith),
          length-hour t h,
          length-minute t h,
        )))

-- For a date from 1900 to 9999 and a time of less than 60 * 2 ^ 31 seconds, whose minutes fit an `int`,
-- the name with its NUL fits what `processunlink` allocates exactly when the path is at most seven bytes
-- longer than the last component.
pub stamp_fits :
    (tm : Tm) (t : ℕ) (path d_name : List ℕ)
    → IsDate tm
    → t < 60 * 2 ^ 31
    → (length (stamp (codes "/usr") tm t ++ path) + 1 ≤ name_room d_name)
      ↔ (length path ≤ length d_name + 7)
unfolding name_room
stamp_fits tm t path d_name date h = (λ e. omega (arith, total), λ e. omega (arith, total))
  where
    total : length (stamp (codes "/usr") tm t ++ path) ≡ 31 + length path
    total =
        length-append (stamp (codes "/usr") tm t) path
        ∙ omega (arith, length-stamp (codes "/usr") tm t date h)

-- A name that begins with the root "/usr" lies in the trash folder.
pub take-stamp :
    (tm : Tm) (t : ℕ) (path : List ℕ)
    → take 14 (stamp (codes "/usr") tm t ++ path) ≡ codes "/usr/trashbin/"
unfolding stamp
take-stamp tm t path = refl

-- Every name begins with the root.
pub take-stamp_root :
    (rest : List ℕ) (tm : Tm) (t : ℕ) (path : List ℕ)
    → take 4 (stamp (codes "/usr" ++ rest) tm t ++ path) ≡ codes "/usr"
unfolding stamp
take-stamp_root rest tm t path = refl
