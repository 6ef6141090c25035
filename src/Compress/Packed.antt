-- ===== src/Compress/Packed.antt =====
-- What the loop of `compress_file` writes, as a function of the file.
use asynchronous_file_system.Common.{
  ℕ, zero, suc, ◌+◌, ◌*◌, ◌≤◌, ◌<◌, ◌≡◌, ℤ, pos, List, ◌++◌, length, take, drop, length-take,
  length-drop, length-append, ◌∷◌, format_d, arith,
}
use asynchronous_file_system.Kernel.Constants.{page_size}
use asynchronous_file_system.Encrypt.Seal.{chunk_size}
use asynchronous_file_system.Encrypt.Chunk.{part}
use asynchronous_file_system.Compress.{print_size}

-- The size text keeps its four bytes.
pub length-print_size : (tei : List ℕ) (z : ℤ) → length tei ≡ 4 → length (print_size tei z) ≡ 4
unfolding print_size
length-print_size tei z four =
    let written = take 3 (format_d z) in
    omega (
      arith,
      length-append written (0 ∷ drop (length written + 1) tei),
      length-take 3 (format_d z),
      length-drop (length written + 1) tei,
    )

module _ (comp : List ℕ → List ℕ) (d : List ℕ) where
  abbrev pub packed_part : ℕ → List ℕ
  packed_part k = comp (part d k)

  -- The size text of chunk k, over the one before.
  abbrev pub size_text : ℕ → List ℕ → List ℕ
  size_text k tei = print_size tei (pos (length (packed_part k)))

  -- What n chunks from chunk k on write, over a tail and with the size text before: each a size text and
  -- the first four bytes of its output, and behind the last one four bytes more.
  abbrev pub layout : ℕ → ℕ → List ℕ → List ℕ → List ℕ
  layout zero k tail tei = tail
  layout (suc n) k tail tei =
      size_text k tei
      ++ take 4 (packed_part k)
      ++ layout n (suc k) (take 4 (drop 4 (packed_part k))) (size_text k tei)

  -- The size of the last of n chunks from chunk k on.
  abbrev pub last_size : ℕ → ℕ → ℤ → ℤ
  last_size zero k err = err
  last_size (suc n) k err = last_size n (suc k) (pos (length (packed_part k)))

  -- Each chunk packs into eight bytes or more, and into a page.
  abbrev pub Packs : Type 0
  Packs =
      (k : ℕ)
      → k * chunk_size < length d
      → (8 ≤ length (packed_part k)) × (length (packed_part k) ≤ page_size)

  -- So the file has eight bytes a chunk and its tail, whatever is in it.
  length-layout :
      (n k : ℕ) (tail tei : List ℕ)
      → length tei ≡ 4
      → Packs
      → (k + n) * chunk_size < length d + chunk_size
      → length tail ≡ 4
      → length (layout n k tail tei) ≡ 8 * n + 4
  length-layout zero k tail tei four packs within short = omega arith
  length-layout (suc n) k tail tei four packs within short =
      let big = packs k (omega arith) in
      let text = length-print_size tei (pos (length (packed_part k))) four in
      let tail' = take 4 (drop 4 (packed_part k)) in
      omega (
        arith,
        text,
        length-append (size_text k tei ++ take 4 (packed_part k))
            (layout n (suc k) tail' (size_text k tei)),
        length-append (size_text k tei) (take 4 (packed_part k)),
        length-take 4 (packed_part k),
        length-layout n (suc k) tail' (size_text k tei) text packs (omega arith) (
            omega (
              arith,
              big.0,
              length-take 4 (drop 4 (packed_part k)),
              length-drop 4 (packed_part k),
            )),
      )

  -- With a chunk at all, the tail before it does not count.
  pub length-layout_any :
      (n k : ℕ) (tail tei : List ℕ)
      → 0 < n
      → length tei ≡ 4
      → Packs
      → (k + n) * chunk_size < length d + chunk_size
      → length (layout n k tail tei) ≡ 8 * n + 4
  length-layout_any zero k tail tei some_chunk four packs within = absurd (omega arith)
  length-layout_any (suc n) k tail tei some_chunk four packs within =
      length-layout (suc n) k (take 4 tei) tei four packs within (omega (arith, length-take 4 tei))
