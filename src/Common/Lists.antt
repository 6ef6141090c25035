-- ===== src/Common/Lists.antt =====
-- Lists measured and indexed by native numbers, under the library's names, and what a
-- write at an offset leaves of a file's bytes.
use Prim.Native.Nat.{ℕ, zero, suc, ◌+◌, ◌-◌, ◌≤◌, min}
use mathlib.Core.Path.{◌≡◌, refl, ap, sym, ◌∙◌, fun_ext}
use mathlib.Core.Logic.{◌≢◌, ◌↔◌, inl, inr}
use mathlib.Core.Bool.{Bool, true, false, ◌&&◌, false≢true}
use mathlib.Core.List.{List, [], ◌∷◌, ◌++◌, map, append-nil}
use native.Mathlib.Omega.{arith}
use native.Mathlib.Nat.{zero-add, suc-add as add-suc}
use asynchronous_file_system.Common.Tests.{◌==◌, if◌then◌else◌, Bool-cases}

module _ {ℓ} {A : Type ℓ} where
  abbrev pub length : List A → ℕ
  length [] = 0
  length (x ∷ xs) = suc (length xs)

  abbrev pub take : ℕ → List A → List A
  take zero xs = []
  take (suc n) [] = []
  take (suc n) (x ∷ xs) = x ∷ take n xs

  abbrev pub drop : ℕ → List A → List A
  drop zero xs = xs
  drop (suc n) [] = []
  drop (suc n) (x ∷ xs) = drop n xs

  abbrev pub replicate : ℕ → A → List A
  replicate zero a = []
  replicate (suc n) a = a ∷ replicate n a

  pub length-append : (xs ys : List A) → length (xs ++ ys) ≡ length xs + length ys
  length-append [] ys = omega arith
  length-append (x ∷ xs) ys = omega (arith, length-append xs ys)

  pub length-take : (n : ℕ) (xs : List A) → length (take n xs) ≡ min n (length xs)
  length-take zero xs = omega arith
  length-take (suc n) [] = omega arith
  length-take (suc n) (x ∷ xs) = omega (arith, length-take n xs)

  pub length-drop : (n : ℕ) (xs : List A) → length (drop n xs) ≡ length xs - n
  length-drop zero xs = omega arith
  length-drop (suc n) [] = omega arith
  length-drop (suc n) (x ∷ xs) = omega (arith, length-drop n xs)

  pub take_all : (n : ℕ) (xs : List A) → length xs ≤ n → take n xs ≡ xs
  take_all zero [] h = refl
  take_all zero (x ∷ xs) h = absurd (omega arith)
  take_all (suc n) [] h = refl
  take_all (suc n) (x ∷ xs) h = ap (λ (r : List A). x ∷ r) (take_all n xs (omega arith))

  pub take-length-append : (xs ys : List A) → take (length xs) (xs ++ ys) ≡ xs
  take-length-append [] ys = refl
  take-length-append (x ∷ xs) ys = ap (λ (r : List A). x ∷ r) (take-length-append xs ys)

  pub take-append :
      (n : ℕ) (xs ys : List A) → length xs ≤ n → take n (xs ++ ys) ≡ xs ++ take (n - length xs) ys
  take-append n [] ys h = ap (λ (k : ℕ). take k ys) (omega arith)
  take-append zero (x ∷ xs) ys h = absurd (omega arith)
  take-append (suc n) (x ∷ xs) ys h =
      ap (λ (r : List A). x ∷ r)
        (take-append n xs ys (omega arith)
          ∙ ap (λ (k : ℕ). xs ++ take k ys)
              (let e : n - length xs ≡ suc n - suc (length xs) = omega arith in e))

  -- A chunk behind the first `n` elements.
  -- Of a list that is long enough, nothing behind it is taken.
  pub take-append_inside : (n : ℕ) (xs ys : List A) → n ≤ length xs → take n (xs ++ ys) ≡ take n xs
  take-append_inside zero xs ys h = refl
  take-append_inside (suc n) [] ys h = absurd (omega arith)
  take-append_inside (suc n) (x ∷ xs) ys h =
      ap (λ (r : List A). x ∷ r) (take-append_inside n xs ys (omega arith))

  pub take-append-take : (n m : ℕ) (xs : List A) → take n xs ++ take m (drop n xs) ≡ take (n + m) xs
  take-append-take zero m xs = rw zero-add
  take-append-take (suc n) m [] = rw add-suc (nothing m)
    where
      nothing : (k : ℕ) → [] ++ take k [] ≡ take (suc (n + m)) []
      nothing zero = refl
      nothing (suc k) = refl
  take-append-take (suc n) m (x ∷ xs) =
      rw add-suc (ap (λ (r : List A). x ∷ r) (take-append-take n m xs))

pub length-map {ℓ κ} :
    {A : Type ℓ} {B : Type κ} (f : A → B) (xs : List A) → length (map f xs) ≡ length xs
length-map f [] = refl
length-map f (x ∷ xs) = ap suc (length-map f xs)

drop-nil : (k : ℕ) → drop k [] ≡ (let none_left : List ℕ = [] in none_left)
drop-nil zero = refl
drop-nil (suc k) = refl

pub drop-drop : (n m : ℕ) (xs : List ℕ) → drop m (drop n xs) ≡ drop (n + m) xs
drop-drop zero m xs = ap (λ (k : ℕ). drop k xs) (omega arith)
drop-drop (suc n) m [] = drop-nil m ∙ sym (drop-nil (suc n + m))
drop-drop (suc n) m (x ∷ xs) =
    drop-drop n m xs
    ∙ sym (ap (λ (k : ℕ). drop k (x ∷ xs)) (let e : suc n + m ≡ suc (n + m) = omega arith in e))

pub drop_all : (n : ℕ) (xs : List ℕ) → length xs ≤ n → drop n xs ≡ []
drop_all zero [] h = refl
drop_all zero (x ∷ xs) h = absurd (omega arith)
drop_all (suc n) [] h = refl
drop_all (suc n) (x ∷ xs) h = drop_all n xs (omega arith)

pub drop-length-append : (xs ys : List ℕ) → drop (length xs) (xs ++ ys) ≡ ys
drop-length-append [] ys = refl
drop-length-append (x ∷ xs) ys = drop-length-append xs ys

-- A file's bytes after a write at its start.
abbrev pub overlay : List ℕ → List ℕ → List ℕ
overlay old [] = old
overlay [] (b ∷ bytes) = b ∷ bytes
overlay (o ∷ old) (b ∷ bytes) = b ∷ overlay old bytes

-- A file's bytes after a write at an offset: a gap past the old end is zeros, and a write of no
-- bytes changes nothing.
abbrev pub splice : List ℕ → ℕ → List ℕ → List ℕ
splice old zero bytes = overlay old bytes
splice old (suc n) [] = old
splice [] (suc n) (b ∷ bytes) = 0 ∷ splice [] n (b ∷ bytes)
splice (o ∷ old) (suc n) (b ∷ bytes) = o ∷ splice old n (b ∷ bytes)

pub overlay-nil : (bytes : List ℕ) → overlay [] bytes ≡ bytes
overlay-nil [] = refl
overlay-nil (b ∷ bytes) = refl

splice_nil : (old : List ℕ) (n : ℕ) → splice old n [] ≡ old
splice_nil old zero = refl
splice_nil old (suc n) = refl

splice_end : (a b : List ℕ) → splice a (length a) b ≡ a ++ b
splice_end [] b = overlay-nil b
splice_end (x ∷ a) [] = ap (λ (r : List ℕ). x ∷ r) (sym (append-nil a))
splice_end (x ∷ a) (c ∷ b) = ap (λ (r : List ℕ). x ∷ r) (splice_end a (c ∷ b))

-- A write where the last one ended, both over the same old bytes.
pub splice-overlay : (old a b : List ℕ) → splice (overlay old a) (length a) b ≡ overlay old (a ++ b)
splice-overlay old [] b = refl
splice-overlay [] (x ∷ a) b = splice_end (x ∷ a) b
splice-overlay (o ∷ old) (x ∷ a) [] =
    ap (λ (r : List ℕ). x ∷ r) (ap (overlay old) (sym (append-nil a)))
splice-overlay (o ∷ old) (x ∷ a) (c ∷ b) = ap (λ (r : List ℕ). x ∷ r) (splice-overlay old a (c ∷ b))

-- Equality of names.
abbrev pub bytes_eq : List ℕ → List ℕ → Bool
bytes_eq [] [] = true
bytes_eq (a ∷ p) (b ∷ q) = a == b && bytes_eq p q
bytes_eq _ _ = false

pub bytes_eq_iff : (p q : List ℕ) → (bytes_eq p q ≡ true) ↔ (p ≡ q)
bytes_eq_iff [] [] = (λ _. refl, λ _. refl)
bytes_eq_iff [] (b ∷ q) = (λ e. cc, λ e. cc)
bytes_eq_iff (a ∷ p) [] = (λ e. cc, λ e. cc)
bytes_eq_iff (a ∷ p) (b ∷ q) = ground (arith, bytes_eq_iff p q)

pub bytes_ne : (p q : List ℕ) → bytes_eq p q ≡ false → p ≢ q
bytes_ne p q h e = false≢true (sym h ∙ (bytes_eq_iff p q).1 e)

-- A map from names changed at one name.
abbrev pub update {ℓ} : {A : Type ℓ} → (List ℕ → A) → List ℕ → A → List ℕ → A
update f p v q = if bytes_eq p q then v else f q

module _ {ℓ} {A : Type ℓ} where
  pub update_self : (f : List ℕ → A) (p : List ℕ) (v : A) → update f p v p ≡ v
  update_self f p v = rw ((bytes_eq_iff p p).1 refl)

  pub update_ne : (f : List ℕ → A) (p q : List ℕ) (v : A) → p ≢ q → update f p v q ≡ f q
  update_ne f p q v h = elim (Bool-cases (bytes_eq p q)) [
    | inl e ↦ absurd (h ((bytes_eq_iff p q).0 e))
    | inr e ↦ rw e
  ]

  pub update_id : (f : List ℕ → A) (p : List ℕ) (v : A) → f p ≡ v → update f p v ≡ f
  update_id f p v e = fun_ext λ q. elim (Bool-cases (bytes_eq p q)) [
    | inl same ↦ rw same (sym e ∙ ap f ((bytes_eq_iff p q).0 same))
    | inr other ↦ rw other
  ]

  pub update-update :
      (f : List ℕ → A) (p : List ℕ) (v w : A) → update (update f p v) p w ≡ update f p w
  update-update f p v w = fun_ext λ q. ground arith
