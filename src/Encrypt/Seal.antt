-- ===== src/Encrypt/Seal.antt =====
-- What `processencryption` writes, as a function of the file: chunks of PAGE_SIZE - 16 bytes, each
-- padded and encrypted by itself, one after the other; and how such a file is read back.
use asynchronous_file_system.Common.{
  ℕ, zero, suc, ◌+◌, ◌*◌, ◌/◌, ◌%◌, ◌≤◌, ◌<◌, ◌≡◌, ◌⊎◌, inl, inr, refl, sym, ap, subst, ◌∙◌, List,
  [], ◌++◌, append_assoc, append-nil, length, take, drop, length-append, length-take, length-drop,
  drop-drop, drop_all, drop-length-append, take_all, take-length-append, take-append-take, arith,
}
use asynchronous_file_system.Kernel.Constants.{page_size}
use asynchronous_file_system.Cipher.{padded, padded_len, zero_padding}
use asynchronous_file_system.Cipher.Padding.{padded_len_bounds, length-padded, unpad, unpad-padded}

-- PAGE_SIZE - 16
abbrev pub chunk_size : ℕ
chunk_size = 4080

-- How many chunks a file of n bytes has.
abbrev pub chunks : ℕ → ℕ
chunks n = (n + 4079) / 4080

-- Reading back with `dec`: page by page, decrypted, less the padding that the last byte tells.
abbrev pub unseal : (List ℕ → List ℕ) → ℕ → List ℕ → List ℕ
unseal dec zero c = []
unseal dec (suc k) c = unpad (dec (take page_size c)) ++ unseal dec k (drop page_size c)

-- `enc` encrypts a padded chunk, `dec` decrypts one.
module _ (enc : List ℕ → List ℕ) where
  abbrev pub block : List ℕ → List ℕ
  block piece = enc (padded piece (length piece))

  -- The first so many chunks.
  abbrev pub seal : ℕ → List ℕ → List ℕ
  seal zero d = []
  seal (suc k) d = block (take chunk_size d) ++ seal k (drop chunk_size d)

  -- One more chunk at the end.
  pub seal-snoc :
      (k : ℕ) (d : List ℕ)
      → seal (suc k) d ≡ seal k d ++ block (take chunk_size (drop (k * chunk_size) d))
  seal-snoc zero d = append-nil _
  seal-snoc (suc k) d =
      ap (λ (r : List ℕ). block (take chunk_size d) ++ r) (seal-snoc k (drop chunk_size d))
      ∙ rw (drop-drop chunk_size (k * chunk_size) d) (
          rw
            (ap (λ (n : ℕ). drop n d)
              (let e : chunk_size + k * chunk_size ≡ suc k * chunk_size = omega arith in e))
            (sym (append_assoc (block (take chunk_size d)) (seal k (drop chunk_size d)) _)))

  module _ (length-enc : (m : List ℕ) → length m % 16 ≡ 0 → length (enc m) ≡ length m) where
    pub length-block :
        (piece : List ℕ)
        → length piece ≤ chunk_size
        → length (block piece) ≡ padded_len (length piece)
    length-block piece h =
        let (fits, whole, longer, room, sum) = padded_len_bounds (length piece) h in
        let padded_length = length-padded piece h in
        length-enc (padded piece (length piece)) (ap (λ n. n % 16) padded_length ∙ whole)
        ∙ padded_length

    length-block_full :
        (d : List ℕ) → chunk_size ≤ length d → length (block (take chunk_size d)) ≡ page_size
    length-block_full d h =
        let e : length (take chunk_size d) ≡ chunk_size = omega (arith, length-take chunk_size d) in
        length-block (take chunk_size d) (omega arith)
        ∙ rw e (unfold padded_len zero_padding in refl)

    pub length-seal :
        (k : ℕ) (d : List ℕ) → k * chunk_size ≤ length d → length (seal k d) ≡ k * page_size
    length-seal zero d h = refl
    length-seal (suc k) d h =
        length-append (block (take chunk_size d)) (seal k (drop chunk_size d))
        ∙ omega (
          arith,
          length-block_full d (omega arith),
          length-seal k (drop chunk_size d) (omega (arith, length-drop chunk_size d)),
        )

    module _ (dec : List ℕ → List ℕ)
        (inverse : (m : List ℕ) → length m % 16 ≡ 0 → dec (enc m) ≡ m) where
      unpad-dec-block :
          (piece : List ℕ) → length piece ≤ chunk_size → unpad (dec (block piece)) ≡ piece
      unpad-dec-block piece h =
          let (fits, whole, longer, room, sum) = padded_len_bounds (length piece) h in
          ap unpad (
            inverse (padded piece (length piece))
              (ap (λ n. n % 16) (length-padded piece h) ∙ whole))
          ∙ unpad-padded piece

      -- The first page of the chunks is the first chunk's block, and behind it are the others.
      first_page :
          (p rest : List ℕ)
          → (length p ≡ page_size) ⊎ ((length p ≤ page_size) × (rest ≡ []))
          → (take page_size (p ++ rest) ≡ p) × (drop page_size (p ++ rest) ≡ rest)
      first_page p rest (inl e) = (
        subst (λ n. take n (p ++ rest) ≡ p) e (take-length-append p rest),
        subst (λ n. drop n (p ++ rest) ≡ rest) e (drop-length-append p rest),
      )
      first_page p rest (inr (h, e)) =
          rw (e, append-nil p) (take_all page_size p h, drop_all page_size p h)

      seal_pages :
          (k : ℕ) (d : List ℕ)
          → suc k * chunk_size < length d + chunk_size
          → (length (block (take chunk_size d)) ≡ page_size)
            ⊎ ((length (block (take chunk_size d)) ≤ page_size) × (seal k (drop chunk_size d) ≡ []))
      seal_pages zero d h =
          let short : length (take chunk_size d) ≤ chunk_size =
            omega (arith, length-take chunk_size d) in
          inr (
            rw (length-block (take chunk_size d) short)
                ((padded_len_bounds (length (take chunk_size d)) short).0),
            refl,
          )
      seal_pages (suc k) d h = inl (length-block_full d (omega arith))

      -- For every cipher that has an inverse on whole blocks, reading back as many pages as the file
      -- has chunks, or fewer, gives back as many chunks of the file.
      pub unseal-seal :
          (k : ℕ) (d : List ℕ)
          → k * chunk_size < length d + chunk_size
          → unseal dec k (seal k d) ≡ take (k * chunk_size) d
      unseal-seal zero d h = refl
      unseal-seal (suc k) d h =
          let (first, others) =
            first_page (block (take chunk_size d)) (seal k (drop chunk_size d))
              (seal_pages k d h) in
          rw
            (
              first,
              others,
              unpad-dec-block (take chunk_size d) (omega (arith, length-take chunk_size d)),
              unseal-seal k (drop chunk_size d) (omega (arith, length-drop chunk_size d)),
            )
            (take-append-take chunk_size (k * chunk_size) d
              ∙ ap (λ (n : ℕ). take n d)
                  (let e : chunk_size + k * chunk_size ≡ suc k * chunk_size = omega arith in e))

      -- So the whole file comes back.
      pub unseal-seal_all :
          (d : List ℕ) → unseal dec (chunks (length d)) (seal (chunks (length d)) d) ≡ d
      unseal-seal_all d =
          unseal-seal (chunks (length d)) d (omega arith)
          ∙ take_all (chunks (length d) * chunk_size) d (omega arith)
