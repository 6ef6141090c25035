-- ===== src/Cipher/Padding.antt =====
-- The padding of a chunk.
use asynchronous_file_system.Common.{
  ℕ, ◌+◌, ◌-◌, ◌%◌, ◌≤◌, ◌<◌, ◌≡◌, refl, ◌∙◌, List, ◌++◌, length, take, replicate, length-append,
  length-take, take_all, take-length-append, zero, suc, [], ◌∷◌, arith,
}
use asynchronous_file_system.Kernel.Constants.{page_size}
use asynchronous_file_system.Cipher.{zero_padding, padded_len, padded}

-- A chunk of at most PAGE_SIZE - 16 bytes, padded, fits a page, is a whole number of cipher
-- blocks, and is longer than the chunk; the padding fits `pad[48]`.
pub padded_len_bounds :
    (n : ℕ)
    → n ≤ page_size - 16
    → (padded_len n ≤ page_size)
      × (padded_len n % 16 ≡ 0)
      × (n < padded_len n)
      × (zero_padding n ≤ 48)
      × (padded_len n ≡ n + zero_padding n)
unfolding padded_len
padded_len_bounds n h = omega arith

pub length-replicate {ℓ} : {A : Type ℓ} (n : ℕ) (a : A) → length (replicate n a) ≡ n
length-replicate zero a = refl
length-replicate (suc n) a = omega (arith, length-replicate n a)

-- The input of the cipher has the length that is given with it.
pub length-padded :
    (src : List ℕ)
    → length src ≤ page_size - 16
    → length (padded src (length src)) ≡ padded_len (length src)
unfolding padded padded_len
length-padded src h =
    length-append (take (length src) src) _
    ∙ omega (
      arith,
      length-take (length src) src,
      length-replicate (zero_padding (length src)) (zero_padding (length src)),
    )

abbrev pub last : List ℕ → ℕ
last [] = 0
last (b ∷ []) = b
last (b ∷ c ∷ bytes) = last (c ∷ bytes)

-- How padding of this form is taken off: the last byte says how many.
pub unpad : List ℕ → List ℕ
unpad bytes = take (length bytes - last bytes) bytes

last-replicate : (n a : ℕ) → 0 < n → last (replicate n a) ≡ a
last-replicate zero a h = absurd (omega arith)
last-replicate (suc zero) a h = refl
last-replicate (suc (suc n)) a h = last-replicate (suc n) a (omega arith)

last-append : (xs ys : List ℕ) → 0 < length ys → last (xs ++ ys) ≡ last ys
last-append [] ys h = refl
last-append (x ∷ []) [] h = absurd (omega arith)
last-append (x ∷ []) (y ∷ ys) h = refl
last-append (x ∷ z ∷ xs) ys h = last-append (z ∷ xs) ys h

-- Taking the padding off a padded buffer gives the buffer, whatever its length.
pub unpad-padded : (src : List ℕ) → unpad (padded src (length src)) ≡ src
unfolding unpad padded
unpad-padded src =
    rw (take_all (length src) src (omega arith), ends, long) (take-length-append src _)
  where
    n : ℕ
    n = zero_padding (length src)

    positive : 0 < n
    positive = unfold zero_padding in omega arith

    ends : last (src ++ replicate n n) ≡ n
    ends = last-append src _ (omega (arith, length-replicate n n)) ∙ last-replicate n n positive

    long : length (src ++ replicate n n) - n ≡ length src
    long = omega (arith, length-append src (replicate n n), length-replicate n n)
