-- ===== src/Encrypt/Loop.antt =====
-- The loop of `processencryption` on a healthy volume, round after round.
use asynchronous_file_system.Common.{
  ℕ, zero, suc, ◌+◌, ◌-◌, ◌*◌, ◌^◌, ◌≤◌, ◌<◌, ◌≡◌, ◌≢◌, ◌∙◌, refl, sym, ap, inl, inr, ℤ, pos,
  add_int, add_int_small, lt_or_le, some, List, length, overlay, update, update_self, update_id,
  update_ne, update-update, arith,
}
use asynchronous_file_system.Kernel.{Kernel}
use asynchronous_file_system.Kernel.Constants.{page_size}
use asynchronous_file_system.Kernel.Monad.{Outcome, done, choose, steps}
use asynchronous_file_system.Kernel.Volume.{Volume, IsHealthy}
use asynchronous_file_system.Cipher.{BlockCipher, padded_len, zero_padding}
use asynchronous_file_system.Encrypt.{LoopEnd, ended, encrypt_loop}
use asynchronous_file_system.Encrypt.Seal.{chunk_size, chunks}
use asynchronous_file_system.Encrypt.Laws.{IsCipher, IsKept}
use asynchronous_file_system.Encrypt.Rounds.{Progress, Round, piece, length-piece, sealed, round}

full_page : padded_len chunk_size ≡ page_size
unfolding padded_len zero_padding
full_page = refl

loop_ends :
    (K : Kernel) (C : BlockCipher K.State) (fuel : ℕ) (f t : K.File) (key : ℕ) (r w : ℤ)
    (s : K.State)
    → 0 < fuel
    → encrypt_loop K C fuel f t key (pos 0) r w s ≡ done ended s
unfolding encrypt_loop choose steps
loop_ends K C zero f t key r w s h = absurd (omega arith)
loop_ends K C (suc fuel) f t key r w s h = refl

module _ (K : Kernel) (V : Volume K) (C : BlockCipher K.State) (key : ℕ) (H : IsHealthy K V)
    (L : IsKept K V C key) (enc : List ℕ → List ℕ → List ℕ → List ℕ) (E : IsCipher K V C enc) where
  open V use {contents, path_of}

  module _ (infile outfile : K.File) (d old bytes : List ℕ)
      (apart : path_of infile ≢ path_of outfile)
      (fits : chunks (length d) * page_size < 2 ^ 31) where
    abbrev pub Going : ℕ → K.State → Type 0
    Going = Progress K V C key H L enc E infile outfile d old bytes apart

    abbrev pub all_sealed : ℕ → List ℕ
    all_sealed = sealed K V C key H L enc E infile outfile d old bytes apart

    abbrev part : ℕ → List ℕ
    part = piece K V C key H L enc E infile outfile d old bytes apart

    -- The loop ends, the trash file holds every chunk, and the key is still there.
    pub record Finished (s s' : K.State) : Type 0 where
      pub written :
          contents s'
          ≡ update
              (contents s)
              (path_of outfile)
              (some (overlay old (all_sealed (chunks (length d)))))
      pub key_left : K.load key s' ≡ some bytes

    full_part : (k : ℕ) → suc k * chunk_size ≤ length d → length (part k) ≡ chunk_size
    full_part k h =
        omega (arith, length-piece K V C key H L enc E infile outfile d old bytes apart k)

    next :
        (k : ℕ) (s after : K.State)
        → suc k * chunk_size ≤ length d
        → Going k s
        → Round K V C key H L enc E infile outfile d old bytes apart k s after
        → Going (suc k) after
    next k s after h p r = record {
      within = h;
      source = rw r.effect (update_ne (contents s) _ _ _ (λ q. apart (sym q)) ∙ p.source);
      target = rw r.effect (update_self (contents s) (path_of outfile) _);
      key_there = r.kept;
    }

    none_left : (k : ℕ) → length d < suc k * chunk_size → length d - k * chunk_size - chunk_size ≡ 0
    none_left k h = omega arith

    last_chunk :
        (k : ℕ)
        → k * chunk_size < length d
        → length d < suc k * chunk_size
        → suc k ≡ chunks (length d)
    last_chunk k more h = omega arith

    same_chunks :
        (k : ℕ) → k * chunk_size ≤ length d → length d ≤ k * chunk_size → k ≡ chunks (length d)
    same_chunks k within h = omega arith

    nothing_left : (k : ℕ) → length d ≤ k * chunk_size → length d - k * chunk_size ≡ 0
    nothing_left k h = omega arith

    abbrev pub loop_at : ℕ → ℕ → K.State → Outcome K.State LoopEnd
    loop_at fuel k s =
        encrypt_loop K C fuel infile outfile key (pos (length d - k * chunk_size))
          (pos (k * chunk_size)) (pos (k * page_size)) s

    stepped :
        (fuel k : ℕ) (after : K.State)
        → suc k * chunk_size ≤ length d
        → encrypt_loop K C fuel infile outfile key
            (pos (length d - k * chunk_size - chunk_size))
            (add_int (pos (k * chunk_size)) (pos (length (part k))))
            (add_int (pos (k * page_size)) (pos (padded_len (length (part k)))))
            after
          ≡ loop_at fuel (suc k) after
    stepped fuel k after h =
        let left : length d - k * chunk_size - chunk_size ≡ length d - suc k * chunk_size =
          omega arith in
        let read : add_int (pos (k * chunk_size)) (pos (length (part k)))
            ≡ pos (suc k * chunk_size) =
          rw (full_part k h)
            (add_int_small (k * chunk_size) chunk_size (omega arith) ∙ ap pos (omega arith)) in
        let written : add_int (pos (k * page_size)) (pos (padded_len (length (part k))))
            ≡ pos (suc k * page_size) =
          rw (full_part k h, full_page)
            (add_int_small (k * page_size) page_size (omega arith) ∙ ap pos (omega arith)) in
        rw (left, read, written) refl

    pub encrypt_loop_lem :
        (fuel k : ℕ) (s : K.State)
        → chunks (length d) < fuel + k
        → Going k s
        → (s' : K.State) × (loop_at fuel k s ≡ done ended s') × Finished s s'
    encrypt_loop_lem zero k s enough p = absurd (omega (arith, p.within))
    encrypt_loop_lem (suc fuel) k s enough p = elim (lt_or_le (k * chunk_size) (length d)) [
      | inl more ↦
          let (after, runs, r) =
            round K V C key H L enc E infile outfile d old bytes apart fuel k s (omega arith) more
              (omega arith) p in
          elim (lt_or_le (length d) (suc k * chunk_size)) [
            | inr full ↦
                let (s', rest, f) =
                  encrypt_loop_lem fuel (suc k) after (omega arith) (next k s after full p r) in
                (
                  s',
                  runs ∙ stepped fuel k after full ∙ rest,
                  record {
                    written =
                        f.written ∙ rw r.effect (update-update (contents s) (path_of outfile) _ _);
                    key_left = f.key_left;
                  },
                )
            | inl last ↦ (
              after,
              runs
                  ∙ rw (none_left k last)
                      (loop_ends K C fuel infile outfile key _ _ after (omega arith)),
              record {
                written =
                    r.effect
                    ∙ ap
                        (λ (n : ℕ).
                          update (contents s) (path_of outfile) (some (overlay old (all_sealed n))))
                        (last_chunk k more last);
                key_left = r.kept;
              },
            )
          ]
      | inr done_all ↦ (
        s,
        rw (nothing_left k done_all)
            (loop_ends K C (suc fuel) infile outfile key _ _ s (omega arith)),
        record {
          written = sym (
              update_id (contents s) (path_of outfile) _ (
                p.target
                ∙ ap (λ (n : ℕ). some (overlay old (all_sealed n)))
                    (same_chunks k p.within done_all)));
          key_left = p.key_there;
        },
      )
    ]
