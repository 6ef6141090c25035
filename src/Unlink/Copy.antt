-- ===== src/Unlink/Copy.antt =====
-- The copy loop on a healthy volume: it ends, and the trash file holds the bytes of the input.
use asynchronous_file_system.Common.{
  ℕ, zero, suc, ◌+◌, ◌-◌, ◌*◌, ◌/◌, ◌%◌, ◌^◌, ◌≤◌, ◌<◌, ◌≡◌, ◌≢◌, ◌∙◌, refl, sym, ap, subst, inl,
  inr, pos, add_int, add_int_small, to_u64, to_u64_small, to_u32, to_u32_small, true, false,
  Bool-cases, ◌==◌, ==_iff, some, List, ◌++◌, length, take, drop, min, overlay, splice,
  splice-overlay, take_all, take-length-append, take-append-take, length-take, length-drop, update,
  update_self, update_ne, update-update, arith,
}
use asynchronous_file_system.Kernel.{Kernel}
use asynchronous_file_system.Kernel.Constants.{page_size}
use asynchronous_file_system.Kernel.Monad.{done, choose, steps}
use asynchronous_file_system.Kernel.Volume.{Volume, IsHealthy, chunk}
use asynchronous_file_system.FileIo.{file_read, file_write}
use asynchronous_file_system.FileIo.Transfers.{file_read_lem, file_write_lem}
use asynchronous_file_system.Unlink.{copied, copy_loop, goes_on, count_page}

module _ (K : Kernel) (V : Volume K) (H : IsHealthy K V) where
  open V use {contents, path_of}

  module _ (infile trashbinfile : K.File) (d old : List ℕ)
      (apart : path_of infile ≢ path_of trashbinfile) where
    -- After `k` full pages: the input is untouched, the trash file has that much of it.
    pub record Progress (k : ℕ) (s : K.State) : Type 0 where
      pub within : k * page_size ≤ length d
      pub source : contents s (path_of infile) ≡ some d
      pub target : contents s (path_of trashbinfile) ≡ some (overlay old (take (k * page_size) d))

    abbrev page : ℕ → List ℕ
    page k = chunk K V page_size (k * page_size) d

    length-page : (k : ℕ) → length (page k) ≡ min page_size (length d - k * page_size)
    length-page k =
        length-take page_size (drop (k * page_size) d)
        ∙ omega (arith, length-drop (k * page_size) d)

    length-page-le : (k : ℕ) → length (page k) ≤ page_size
    length-page-le k = omega (arith, length-page k)

    -- What the arguments of the calls stand for.
    offset : (k : ℕ) → k * page_size < 2 ^ 31 → to_u64 (pos k) * page_size % 2 ^ 64 ≡ k * page_size
    offset k h = omega arith

    -- The page goes where the copy ends.
    grown :
        (k : ℕ)
        → k * page_size ≤ length d
        → splice (overlay old (take (k * page_size) d)) (k * page_size) (page k)
          ≡ overlay old (take (k * page_size + page_size) d)
    grown k h =
        subst
          (λ n.
            splice (overlay old so_far) n (page k)
            ≡ overlay old (take (k * page_size + page_size) d))
          (length-take (k * page_size) d ∙ omega arith)
          (splice-overlay old so_far (page k)
            ∙ ap (overlay old) (take-append-take (k * page_size) page_size d))
      where
        so_far : List ℕ
        so_far = take (k * page_size) d

    -- One read and one write.
    record Round (k : ℕ) (buf : List ℕ) (s : K.State) : Type 0 where
      mid : K.State
      rest : List ℕ
      after : K.State
      reads :
          file_read K infile (to_u64 (pos k) * page_size % 2 ^ 64) buf page_size s
          ≡ done (pos (length (page k)), page k ++ rest) mid
      writes :
          file_write K trashbinfile
            (to_u64 (pos (k * page_size)))
            (page k ++ rest)
            (to_u32 (pos (length (page k))))
            mid
          ≡ done (pos (length (page k))) after
      effect :
          contents after
          ≡ update
              (contents s)
              (path_of trashbinfile)
              (some (overlay old (take (k * page_size + page_size) d)))

    round : (k : ℕ) (buf : List ℕ) (s : K.State) → length d < 2 ^ 31 → Progress k s → Round k buf s
    round k buf s small p =
        let (m, read, kept) =
          file_read_lem K V H infile (k * page_size) buf page_size s d p.source
            (omega (arith, length-page-le k)) in
        let n = to_u32 (pos (length (page k))) in
        let rest = drop (length (page k)) buf in
        let sent : take n (page k ++ rest) ≡ page k =
          rw (to_u32_small (length (page k)) (omega (arith, length-page-le k)))
            (take-length-append (page k) rest) in
        let before : contents m (path_of trashbinfile)
            ≡ some (overlay old (take (k * page_size) d)) =
          rw kept p.target in
        let (a, wrote, effect) =
          file_write_lem K V H trashbinfile (k * page_size) (page k ++ rest) n m _ before
            (rw sent (omega (arith, length-page-le k))) in
        record {
          mid = m;
          rest = rest;
          after = a;
          reads = rw (offset k (omega arith)) read;
          writes = rw (to_u64_small (k * page_size) (omega arith)) (rw sent at wrote);
          effect = effect ∙ rw (kept, sent, grown k within) refl;
        }
      where
        open p use {within}

    pub copy_loop_lem :
        (fuel k : ℕ) (buf : List ℕ) (s : K.State)
        → length d < 2 ^ 31
        → length d / page_size < fuel + k
        → Progress k s
        → (s' : K.State) × (copy_loop K fuel infile trashbinfile buf (pos k) (pos (k * page_size)) s
            ≡ done copied s')
          × (contents s' ≡ update (contents s) (path_of trashbinfile) (some (overlay old d)))
    unfolding copy_loop choose steps
    copy_loop_lem zero k buf s small enough p = absurd (omega (arith, p.within))
    copy_loop_lem (suc fuel) k buf s small enough p =
        let r = round k buf s small p in
        elim (Bool-cases (length (page k) == page_size)) [
          | inl full ↦
              let (s', runs, final) =
                copy_loop_lem fuel (suc k) (page k ++ r.rest) r.after small (omega arith)
                  (next full r) in
              (
                s',
                rw r.reads (rw r.writes (rw (goes_on_page full, stepped full, counted full) runs)),
                final ∙ rw r.effect (update-update (contents s) (path_of trashbinfile) _ _),
              )
          | inr last ↦ (
            r.after,
            rw r.reads (rw r.writes (rw (goes_on_last last))),
            r.effect ∙ rw (all last) refl,
          )
        ]
      where
        open p use {within}

        goes_on_page :
            (length (page k) == page_size) ≡ true
            → goes_on (pos (length (page k))) (pos (length (page k))) ≡ true
        goes_on_page e = unfold goes_on in ground arith

        goes_on_last :
            (length (page k) == page_size) ≡ false
            → goes_on (pos (length (page k))) (pos (length (page k))) ≡ false
        goes_on_last e = unfold goes_on in ground arith

        all : (length (page k) == page_size) ≡ false → take (k * page_size + page_size) d ≡ d
        all e = take_all _ d (ground (arith, length-page k))

        stepped :
            (length (page k) == page_size) ≡ true
            → count_page (pos (length (page k))) (pos k) ≡ pos (suc k)
        stepped e =
            unfold count_page in rw e (add_int_small k 1 (omega arith) ∙ ap pos (omega arith))

        counted :
            (length (page k) == page_size) ≡ true
            → add_int (pos (k * page_size)) (pos (length (page k))) ≡ pos (suc k * page_size)
        counted e =
            let full = (==_iff (length (page k)) page_size).0 e in
            add_int_small (k * page_size) (length (page k)) (omega (arith, length-page k))
            ∙ ap pos (omega arith)

        next :
            (length (page k) == page_size) ≡ true → (r : Round k buf s) → Progress (suc k) r.after
        next e r = record {
          within =
              let full = (==_iff (length (page k)) page_size).0 e in omega (arith, length-page k);
          source = rw r.effect (update_ne (contents s) _ _ _ (λ q. apart (sym q)) ∙ p.source);
          target = rw r.effect (
              update_self (contents s) (path_of trashbinfile) _
              ∙ ap (λ n. some (overlay old (take n d))) (omega arith));
        }
