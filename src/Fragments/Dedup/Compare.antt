-- ===== src/Fragments/Dedup/Compare.antt =====
-- The inner loop of `xdedup` against the length of the longest common prefix.
use asynchronous_file_system.Common.{
  ℕ, zero, suc, ◌+◌, ◌<◌, ◌≡◌, ◌∙◌, refl, sym, ap, subst, ◌==◌, if◌then◌else◌, ltb, true, false,
  Bool-cases, inl, inr, none, some, List, [], ◌∷◌, ◌++◌, append_assoc, append-nil, length,
  length-append, arith,
}
use asynchronous_file_system.Kernel.Constants.{page_size}
use asynchronous_file_system.Kernel.Monad.{Outcome, done, overrun, choose, steps}
use asynchronous_file_system.Fragments.Dedup.{get_elem?, byte_at, compare_loop}

-- How many bytes two lists have in common at their start, up to a NUL.
abbrev pub common : List ℕ → List ℕ → ℕ
common [] ys = 0
common (x ∷ xs) [] = 0
common (x ∷ xs) (y ∷ ys) = if x == 0 then 0 else if x == y then suc (common xs ys) else 0

get_elem?-append :
    (p : List ℕ) (x : ℕ) (xs : List ℕ) → get_elem? (p ++ (x ∷ xs)) (length p) ≡ some x
get_elem?-append [] x xs = refl
get_elem?-append (a ∷ p) x xs = get_elem?-append p x xs

get_elem?-length : (p : List ℕ) → get_elem? p (length p) ≡ none
get_elem?-length [] = refl
get_elem?-length (a ∷ p) = get_elem?-length p

module _ {S : Type 0} (s : S) (buff : List ℕ) (i : ℕ) where
  byte_at-some : {c : ℕ} → get_elem? buff i ≡ some c → byte_at buff i s ≡ done c s
  unfolding byte_at
  byte_at-some e = rw (e, byte_at)

  byte_at-none : get_elem? buff i ≡ none → byte_at buff i s ≡ overrun s
  unfolding byte_at
  byte_at-none e = rw (e, byte_at)

-- What the loop gives where so many bytes are left of both pages.
abbrev found : {S : Type 0} → S → ℕ → ℕ → ℕ → Outcome S ℕ
found s i left n = if n == left then overrun s else done (i + n) s

found_suc :
    {S : Type 0} (s : S) (i left n : ℕ) → found s (i + 1) left n ≡ found s i (suc left) (suc n)
found_suc s i left n = elim (Bool-cases (n == left)) [
  | inl same ↦ let both : (suc n == suc left) ≡ true = ground arith in rw (same, both) refl
  | inr other ↦
      let both : (suc n == suc left) ≡ false = ground arith in
      rw (other, both) (ap (λ (k : ℕ). done k s) (omega arith))
]

found_none : {S : Type 0} (s : S) (i left : ℕ) → found s i (suc left) 0 ≡ done i s
found_none s i left =
    let apart : (0 == suc left) ≡ false = ground arith in
    rw apart (ap (λ (k : ℕ). done k s) (omega arith))

module _ {S : Type 0} (s : S) where
  from_here :
      (fuel : ℕ) (p q xs ys : List ℕ)
      → length p ≡ length q
      → length xs ≡ length ys
      → length p + length xs ≡ page_size
      → length xs < fuel
      → compare_loop fuel (p ++ xs) (q ++ ys) (length p) s
        ≡ found s (length p) (length xs) (common xs ys)
  unfolding compare_loop choose steps
  from_here zero p q xs ys e same full enough = absurd (omega arith)
  from_here (suc fuel) p q [] [] e same full enough =
      rw (append-nil p, byte_at-none s p (length p) (get_elem?-length p)) refl
  from_here (suc fuel) p q [] (y ∷ ys) e same full enough = absurd (omega arith)
  from_here (suc fuel) p q (x ∷ xs) [] e same full enough = absurd (omega arith)
  from_here (suc fuel) p q (x ∷ xs) (y ∷ ys) e same full enough =
      let further : compare_loop fuel (p ++ (x ∷ xs)) (q ++ (y ∷ ys)) (length p + 1) s
          ≡ found s (length p + 1) (length xs) (common xs ys) =
        rw (← append_assoc p (x ∷ []) xs, ← append_assoc q (y ∷ []) ys, ← longer)
          (from_here fuel (p ++ (x ∷ [])) (q ++ (y ∷ [])) xs ys
            (omega (arith, length-append p (x ∷ []), length-append q (y ∷ []))) (omega arith)
            (omega (arith, longer)) (omega arith)) in
      elim (Bool-cases (x == 0)) [
        | inl nul ↦ rw (at_p, nul) (sym (found_none s (length p) (length xs)))
        | inr text ↦ elim (Bool-cases (y == 0)) [
          | inl nul ↦
              let apart : (x == y) ≡ false = ground arith in
              rw (at_p, text, room, at_q, nul, apart) (sym (found_none s (length p) (length xs)))
          | inr more ↦ elim (Bool-cases (x == y)) [
            | inr apart ↦
                rw (at_p, text, room, at_q, more, apart) (sym (found_none s (length p) (length xs)))
            | inl alike ↦
                rw (at_p, text, room, at_q, more, alike)
                  (further ∙ found_suc s (length p) (length xs) (common xs ys))
          ]
        ]
      ]
    where
      at_p : byte_at (p ++ (x ∷ xs)) (length p) s ≡ done x s
      at_p = byte_at-some s (p ++ (x ∷ xs)) (length p) (get_elem?-append p x xs)

      at_q : byte_at (q ++ (y ∷ ys)) (length p) s ≡ done y s
      at_q = byte_at-some s (q ++ (y ∷ ys)) (length p) (
          subst (λ (n : ℕ). get_elem? (q ++ (y ∷ ys)) n ≡ some y) (sym e) (get_elem?-append q y ys))

      room : ltb (length p) page_size ≡ true
      room = ground arith

      longer : length (p ++ (x ∷ [])) ≡ length p + 1
      longer = omega (arith, length-append p (x ∷ []))

  -- Of two pages, the loop finds how many bytes they have in common at their start up to a NUL, unless
  -- these are all the bytes of the page: then it reads behind the end of the first page.
  pub compare_loop-common :
      (xs ys : List ℕ)
      → length xs ≡ page_size
      → length ys ≡ page_size
      → compare_loop (suc page_size) xs ys 0 s
        ≡ (if common xs ys == page_size then overrun s else done (common xs ys) s)
  compare_loop-common xs ys full full' =
      let start : 0 + common xs ys ≡ common xs ys = omega arith in
      from_here (suc page_size) [] [] xs ys refl (omega arith) (omega arith) (omega arith)
      ∙ rw (full, start) refl
