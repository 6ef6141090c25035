-- ===== src/Compress/Loop.antt =====
-- The loop of `compress_file` on a healthy volume, round after round.
use asynchronous_file_system.Common.{
  ℕ, zero, suc, ◌+◌, ◌-◌, ◌*◌, ◌^◌, ◌≤◌, ◌<◌, ◌≡◌, ◌≢◌, ◌∙◌, refl, sym, ap, subst, ℤ, pos, add_int,
  add_int_small, to_u32, some, List, [], ◌++◌, append_assoc, length, take, drop, length-take,
  length-append, take-append-take, update, update_self, update_id, update_ne, update-update, arith,
}
use asynchronous_file_system.Kernel.{Kernel}
use asynchronous_file_system.Kernel.Constants.{page_size}
use asynchronous_file_system.Kernel.Monad.{done, choose, steps}
use asynchronous_file_system.Kernel.Volume.{Volume, IsHealthy}
use asynchronous_file_system.Encrypt.Seal.{chunk_size, chunks}
use asynchronous_file_system.Encrypt.Chunk.{part, length-part}
use asynchronous_file_system.Compress.{Compressor, compress_loop}
use asynchronous_file_system.Compress.Packer.{IsPacker}
use asynchronous_file_system.Compress.Round.{Progress, round}
use asynchronous_file_system.Compress.Packed.{
  Packs, packed_part, size_text, layout, last_size, length-print_size,
}

loop_ends :
    (K : Kernel) (Z : Compressor K.State) (fuel : ℕ) (f t : K.File) (out_len : ℤ) (tei : List ℕ)
    (err r w : ℤ) (s : K.State)
    → compress_loop K Z (suc fuel) f t out_len tei err (pos 0) r w s ≡ done err s
unfolding compress_loop choose steps
loop_ends K Z fuel f t out_len tei err r w s = refl

module _ (K : Kernel) (V : Volume K) (H : IsHealthy K V) (Z : Compressor K.State)
    (comp : List ℕ → List ℕ) (Q : IsPacker K V Z comp) where
  open V use {contents, path_of}

  module _ (infile outfile : K.File) (d : List ℕ) (out_len : ℤ)
      (apart : path_of infile ≢ path_of outfile) (small : length d < 2 ^ 31)
      (room : page_size ≤ to_u32 out_len) (packs : Packs comp d) where
    abbrev out : ℕ → List ℕ
    out = packed_part comp d

    abbrev Going : ℕ → List ℕ → List ℕ → List ℕ → K.State → Type 0
    Going = Progress K V H Z comp Q infile outfile d out_len apart small room packs

    regroup : (p t c rest : List ℕ) → ((p ++ t) ++ c) ++ rest ≡ p ++ ((t ++ c) ++ rest)
    regroup p t c rest =
        ap (λ (l : List ℕ). l ++ rest) (append_assoc p t c) ∙ append_assoc p (t ++ c) rest

    next :
        (k : ℕ) (p tail tei : List ℕ) (s after : K.State)
        → k * chunk_size < length d
        → Going k p tail tei s
        → contents after
          ≡ update
              (contents s)
              (path_of outfile)
              (some (p ++ size_text comp d k tei ++ take 8 (out k)))
        → Going
            (suc k)
            (p ++ size_text comp d k tei ++ take 4 (out k))
            (take 4 (drop 4 (out k)))
            (size_text comp d k tei)
            after
    next k p tail tei s after more g effect =
        let text = length-print_size tei (pos (length (out k))) g.four in
        let start = p ++ size_text comp d k tei in
        record {
          source = rw effect (update_ne (contents s) _ _ _ (λ e. apart (sym e)) ∙ g.source);
          target =
              rw effect (update_self (contents s) (path_of outfile) _)
              ∙ ap some (
                  ap (λ (l : List ℕ). start ++ l) (sym (take-append-take 4 4 (out k)))
                  ∙ sym (append_assoc start (take 4 (out k)) (take 4 (drop 4 (out k)))));
          length-p = omega (
            arith,
            text,
            g.length-p,
            length-append start (take 4 (out k)),
            length-append p (size_text comp d k tei),
            length-take 4 (out k),
            (packs k more).0,
          );
          short = omega (arith, length-take 4 (drop 4 (out k)));
          four = text;
        }

    -- The read offset matters only while there is something to read.
    compress_loop_lem :
        (fuel n k : ℕ) (p tail tei : List ℕ) (err r w : ℤ) (s : K.State)
        → n < fuel
        → k + n ≡ chunks (length d)
        → (k * chunk_size < length d → r ≡ pos (k * chunk_size))
        → w ≡ pos (length p)
        → Going k p tail tei s
        → (s' : K.State) × (compress_loop K Z fuel infile outfile out_len tei err
              (pos (length d - k * chunk_size))
              r
              w
              s
            ≡ done (last_size comp d n k err) s')
          × (contents s'
              ≡ update (contents s) (path_of outfile) (some (p ++ layout comp d n k tail tei)))
    compress_loop_lem zero n k p tail tei err r w s h total at_r at_w g = absurd (omega arith)
    compress_loop_lem (suc fuel) zero k p tail tei err r w s h total at_r at_w g =
        let none_left : length d - k * chunk_size ≡ 0 = omega arith in
        (
          s,
          rw none_left (loop_ends K Z fuel infile outfile out_len tei err r w s),
          sym (update_id (contents s) (path_of outfile) _ g.target),
        )
    compress_loop_lem (suc fuel) (suc n) k p tail tei err r w s h total at_r at_w g =
        let more : k * chunk_size < length d = omega arith in
        let (after, runs, effect) =
          round K V H Z comp Q infile outfile d out_len apart small room packs fuel k p tail tei err
            s more g in
        let p' = p ++ size_text comp d k tei ++ take 4 (out k) in
        let going = next k p tail tei s after more g effect in
        let full : suc k * chunk_size < length d
            → add_int (pos (k * chunk_size)) (pos (length (part d k))) ≡ pos (suc k * chunk_size) =
          λ others.
            let whole : length (part d k) ≡ chunk_size = omega (arith, length-part d k) in
            rw whole
              (add_int_small (k * chunk_size) chunk_size (omega arith) ∙ ap pos (omega arith)) in
        let further : add_int (pos (length p)) (pos 8) ≡ pos (length p') =
          add_int_small (length p) 8 (omega (arith, g.length-p))
          ∙ ap pos (omega (arith, g.length-p, going.length-p)) in
        let (s', rest, final) =
          compress_loop_lem fuel n (suc k) p' (take 4 (drop 4 (out k))) (size_text comp d k tei)
            (pos (length (out k))) (add_int (pos (k * chunk_size)) (pos (length (part d k))))
            (add_int (pos (length p)) (pos 8)) after (omega arith) (omega arith) full further
            going in
        let left : length d - k * chunk_size - chunk_size ≡ length d - suc k * chunk_size =
          omega arith in
        (
          s',
          rw (at_r more, at_w) (runs ∙ rw left rest),
          final
              ∙ rw effect (update-update (contents s) (path_of outfile) _ _)
              ∙ ap (λ (l : List ℕ). update (contents s) (path_of outfile) (some l))
                  (regroup p (size_text comp d k tei) (take 4 (out k)) _),
        )

    -- The loop from the start.
    pub compress_loop_packs :
        (fuel : ℕ) (tei : List ℕ) (s : K.State)
        → contents s (path_of infile) ≡ some d
        → contents s (path_of outfile) ≡ some []
        → length tei ≡ 4
        → chunks (length d) < fuel
        → (s' : K.State) × (compress_loop K Z fuel infile outfile out_len tei
              (pos 0)
              (pos (length d))
              (pos 0)
              (pos 0)
              s
            ≡ done (last_size comp d (chunks (length d)) 0 (pos 0)) s')
          × (contents s'
              ≡ update
                  (contents s)
                  (path_of outfile)
                  (some (layout comp d (chunks (length d)) 0 [] tei)))
    compress_loop_packs fuel tei s source target four enough =
        subst
          (λ (m : ℕ).
            (s' : K.State) × (compress_loop K Z fuel infile outfile out_len tei (pos 0) (pos m)
                (pos 0) (pos 0) s
              ≡ done (last_size comp d (chunks (length d)) 0 (pos 0)) s')
            × (contents s'
                ≡ update (contents s) (path_of outfile)
                    (some (layout comp d (chunks (length d)) 0 [] tei))))
          (let all : length d - 0 ≡ length d = omega arith in all)
          (compress_loop_lem fuel (chunks (length d)) 0 [] [] tei (pos 0) (pos 0) (pos 0) s enough
            (omega arith) (λ h. refl) refl
            (record {
              source = source;
              target = target;
              length-p = refl;
              short = omega arith;
              four = four;
            }))
