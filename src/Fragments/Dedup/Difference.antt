-- ===== src/Fragments/Dedup/Difference.antt =====
-- What `xdedup` does with two files that differ in the first page.
use asynchronous_file_system.Common.{
  ℕ, zero, suc, ◌+◌, ◌^◌, ◌≤◌, ◌<◌, ◌≡◌, ◌∙◌, refl, ap, ◌==◌, ltb, ltb_ℤ, add_int, add_int_small,
  to_int, to_int_small, pos, true, false, some, Option, List, [], ◌∷◌, ◌++◌, take, drop, length,
  length-take, length-drop, length-append, take-append_inside, splice, update, arith,
}
use asynchronous_file_system.Kernel.{Kernel, Buffer}
use asynchronous_file_system.Kernel.Constants.{page_size}
use asynchronous_file_system.Kernel.Monad.{done, choose, steps}
use asynchronous_file_system.Kernel.Volume.{Volume, IsHealthy}
use asynchronous_file_system.Fragments.Dedup.{ended, compare_loop, read_page, xdedup_loop}
use asynchronous_file_system.Fragments.Dedup.Compare.{common, compare_loop-common}

-- A first difference within both files is found in pages of them, whatever is behind.
common-take :
    (n : ℕ) (xs ys g h : List ℕ)
    → common xs ys < n
    → common xs ys < length xs
    → common xs ys < length ys
    → common (take n xs ++ g) (take n ys ++ h) ≡ common xs ys
common-take n [] ys g h a b c = absurd (omega arith)
common-take n (x ∷ xs) [] g h a b c = absurd (omega arith)
common-take zero (x ∷ xs) (y ∷ ys) g h a b c = absurd (omega arith)
common-take (suc n) (x ∷ xs) (y ∷ ys) g h a b c = ground (arith, common-take n xs ys g h)

take-take_short : (m n : ℕ) (xs : List ℕ) → m ≤ n → take m (take n xs) ≡ take m xs
take-take_short zero n xs h = refl
take-take_short (suc m) zero xs h = absurd (omega arith)
take-take_short (suc m) (suc n) [] h = refl
take-take_short (suc m) (suc n) (x ∷ xs) h =
    ap (λ (r : List ℕ). x ∷ r) (take-take_short m n xs (omega arith))

module _ (K : Kernel) (V : Volume K) (H : IsHealthy K V)
    (kmalloc_length : (n : ℕ) (s : K.State) (b : Buffer)
      → (K.kmalloc n s).0 ≡ some b
      → length b.bytes ≡ n) where
  open V use {contents, path_of}

  -- A page that the start of a file was read into.
  abbrev in_page : List ℕ → List ℕ → List ℕ
  in_page d buf = take page_size d ++ drop (length (take page_size d)) buf

  length-in_page : (d buf : List ℕ) → length buf ≡ page_size → length (in_page d buf) ≡ page_size
  length-in_page d buf full = omega (
    arith,
    length-append (take page_size d) (drop (length (take page_size d)) buf),
    length-take page_size d,
    length-drop (length (take page_size d)) buf,
  )

  read_page_lem :
      (f : K.File) (buf d : List ℕ) (s : K.State)
      → contents s (path_of f) ≡ some d
      → (s' : K.State) × (read_page K f buf 0 s
          ≡ done (pos (length (take page_size d)), in_page d buf, length (take page_size d)) s')
        × (contents s' ≡ contents s)
  unfolding read_page steps
  read_page_lem f buf d s held =
      let raised = K.set_fs K.kernel_ds s in
      let there : contents raised (path_of f) ≡ some d = rw (H.set_fs_keeps K.kernel_ds s) held in
      let start : 0 + length (take page_size d) ≡ length (take page_size d) = omega arith in
      (
        K.set_fs (K.get_fs s) (K.vfs_read f buf page_size 0 raised).1,
        rw
            (
              H.read_result f buf page_size 0 raised d there,
              to_int_small (length (take page_size d)) (omega (arith, length-take page_size d)),
              start,
            )
            refl,
        H.set_fs_keeps _ _ ∙ H.read_keeps f buf page_size 0 raised ∙ H.set_fs_keeps _ _,
      )

  module _ (f1 f2 f3 path3 : K.File) (outfile : Option (List ℕ)) (d1 d2 out : List ℕ)
      (differ : (0 < common d1 d2) × (common d1 d2 < page_size))
      (within : (common d1 d2 < length d1) × (common d1 d2 < length d2))
      (small : length d1 < 2 ^ 31) where
    abbrev c : ℕ
    c = common d1 d2

    compare_pages :
        (buf1 buf2 : List ℕ) (s : K.State)
        → length buf1 ≡ page_size
        → length buf2 ≡ page_size
        → compare_loop (suc page_size) (in_page d1 buf1) (in_page d2 buf2) 0 s ≡ done c s
    compare_pages buf1 buf2 s full1 full2 =
        let found : common (in_page d1 buf1) (in_page d2 buf2) ≡ c =
          common-take page_size d1 d2 _ _ differ.1 within.0 within.1 in
        let inside : (c == page_size) ≡ false = ground arith in
        compare_loop-common s (in_page d1 buf1) (in_page d2 buf2) (length-in_page d1 buf1 full1)
          (length-in_page d2 buf2 full2)
        ∙ rw (found, inside) refl

    -- On a healthy volume whose `kmalloc` hands out as many bytes as it is asked for, of two files that
    -- first differ, or both have a NUL, behind the start, within both of them and within the first page,
    -- the loop writes the bytes in front of that place over the start of the third file and ends by its
    -- `break`, with their number as `file_size`. No other file has changed.
    pub xdedup_first_difference :
        (fuel : ℕ) (s : K.State)
        → contents s (path_of f1) ≡ some d1
        → contents s (path_of f2) ≡ some d2
        → contents s (path_of f3) ≡ some out
        → (s' : K.State) × (xdedup_loop K
              (suc fuel)
              f1
              f2
              f3
              path3
              outfile
              (length d1)
              (pos 0)
              0
              0
              0
              s
            ≡ done (ended (pos c) (length (take page_size d1)) (length (take page_size d2)) c) s')
          × (contents s' ≡ update (contents s) (path_of f3) (some (splice out 0 (take c d1))))
    unfolding xdedup_loop choose steps
    xdedup_first_difference fuel s held1 held2 held3 =
        let (buff3, got3) = H.kmalloc_some page_size s in
        let s1 = (K.kmalloc page_size s).1 in
        let (buff4, got4) = H.kmalloc_some page_size s1 in
        let s2 = (K.kmalloc page_size s1).1 in
        let same2 : contents s2 ≡ contents s =
          H.kmalloc_keeps page_size s1 ∙ H.kmalloc_keeps page_size s in
        let (s3, reads1, same3) = read_page_lem f1 buff3.bytes d1 s2 (rw same2 held1) in
        let (s4, reads2, same4) = read_page_lem f2 buff4.bytes d2 s3 (rw (same3, same2) held2) in
        let same : contents s4 ≡ contents s = same4 ∙ same3 ∙ same2 in
        let compares =
          compare_pages buff3.bytes buff4.bytes s4 (kmalloc_length page_size s buff3 got3)
            (kmalloc_length page_size s1 buff4 got4) in
        let raised = K.set_fs K.kernel_ds s4 in
        let there : contents raised (path_of f3) ≡ some out =
          rw (H.set_fs_keeps K.kernel_ds s4, same) held3 in
        (
          (K.vfs_write f3 (take c d1) 0 raised).1,
          rw
              (
                more,
                got3,
                got4,
                reads1,
                reads2,
                compares,
                some_bytes,
                text buff3.bytes,
                H.write_result f3 (take c d1) 0 raised out there,
                written,
                int_c,
                whole,
                short,
                total,
                other,
                ends,
              )
              refl,
          H.write_contents f3 (take c d1) 0 raised out there
              ∙ rw (H.set_fs_keeps K.kernel_ds s4, same) refl,
        )
      where
        more : ltb_ℤ (pos 0) (pos (length d1)) ≡ true
        more = ground arith

        some_bytes : (c == 0) ≡ false
        some_bytes = ground arith

        text : (buf : List ℕ) → take c (in_page d1 buf) ≡ take c d1
        text buf =
            take-append_inside c (take page_size d1) (drop (length (take page_size d1)) buf)
              (omega (arith, length-take page_size d1))
            ∙ take-take_short c page_size d1 (omega arith)

        written : length (take c d1) ≡ c
        written = omega (arith, length-take c d1)

        int_c : to_int (pos c) ≡ pos c
        int_c = to_int_small c (omega arith)

        whole : (c == c) ≡ true
        whole = ground arith

        short : ltb c page_size ≡ true
        short = ground arith

        total : add_int (pos 0) (pos c) ≡ pos c
        total = add_int_small 0 c (omega arith) ∙ ap pos (omega arith)

        other : (c == length d1) ≡ false
        other = ground arith

        ends : 0 + c ≡ c
        ends = omega arith
