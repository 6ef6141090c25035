-- ===== src/Encrypt/Rounds.antt =====
-- The loop of `processencryption` on a healthy volume: it ends, and the trash file holds the chunks.
use asynchronous_file_system.Common.{
  ℕ, suc, ◌-◌, ◌*◌, ◌%◌, ◌^◌, ◌≤◌, ◌<◌, ◌≡◌, ◌≢◌, ◌∙◌, refl, sym, ap, subst, pos, ltb_ℤ, add_int,
  to_u64_small, min, true, some, List, length, take, drop, overlay, splice, splice-overlay, update,
  c_string, arith,
}
use asynchronous_file_system.Kernel.{Kernel}
use asynchronous_file_system.Kernel.Constants.{page_size}
use asynchronous_file_system.Kernel.Monad.{choose, steps}
use asynchronous_file_system.Kernel.Volume.{Volume, IsHealthy}
use asynchronous_file_system.Cipher.{BlockCipher, padded_len}
use asynchronous_file_system.Cipher.Padding.{padded_len_bounds}
use asynchronous_file_system.Encrypt.{encrypt_loop}
use asynchronous_file_system.Encrypt.Chunk.{
  next_size_lem, size_left_lem, part, length-part, chunk-eq-part,
}
use asynchronous_file_system.Encrypt.Seal.{
  chunk_size, seal, seal-snoc, length-seal, block, length-block,
}
use asynchronous_file_system.Encrypt.Laws.{IsCipher, IsKept}
use asynchronous_file_system.Encrypt.Calls.{
  Same-trans, Same-kmalloc, Same-kfree, kmalloc_lem, read_chunk_lem, key_string_lem, with_key,
  clone_encryption_lem, write_block_lem,
}

module _ (K : Kernel) (V : Volume K) (C : BlockCipher K.State) (key : ℕ) (H : IsHealthy K V)
    (L : IsKept K V C key) (enc : List ℕ → List ℕ → List ℕ → List ℕ) (E : IsCipher K V C enc) where
  open V use {contents, path_of}

  module _ (infile outfile : K.File) (d old bytes : List ℕ)
      (apart : path_of infile ≢ path_of outfile) where
    abbrev pub cipher : List ℕ → List ℕ
    cipher = with_key K V C key H L enc E (c_string bytes)

    length-cipher : (m : List ℕ) → length m % 16 ≡ 0 → length (cipher m) ≡ length m
    length-cipher = E.length-enc (c_string bytes) (take 16 C.aes_iv)

    -- The first so many chunks of the input, encrypted.
    abbrev pub sealed : ℕ → List ℕ
    sealed k = seal cipher k d

    -- After `k` full chunks: the input and the key are there, the trash file has that much of it.
    pub record Progress (k : ℕ) (s : K.State) : Type 0 where
      pub within : k * chunk_size ≤ length d
      pub source : contents s (path_of infile) ≡ some d
      pub target : contents s (path_of outfile) ≡ some (overlay old (sealed k))
      pub key_there : K.load key s ≡ some bytes

    abbrev pub piece : ℕ → List ℕ
    piece k = part d k

    pub length-piece : (k : ℕ) → length (piece k) ≡ min chunk_size (length d - k * chunk_size)
    length-piece = length-part d

    abbrev sealed_piece : ℕ → List ℕ
    sealed_piece k = block cipher (piece k)

    short_piece : (k : ℕ) → length (piece k) ≤ chunk_size
    short_piece k = omega (arith, length-piece k)

    length-sealed_piece : (k : ℕ) → length (sealed_piece k) ≡ padded_len (length (piece k))
    length-sealed_piece k = length-block cipher length-cipher (piece k) (short_piece k)

    -- The block goes where the trash file ends.
    grown :
        (k : ℕ)
        → k * chunk_size ≤ length d
        → splice (overlay old (sealed k)) (k * page_size) (sealed_piece k)
          ≡ overlay old (sealed (suc k))
    grown k h =
        subst
          (λ (n : ℕ).
            splice (overlay old (sealed k)) n (sealed_piece k) ≡ overlay old (sealed (suc k)))
          (length-seal cipher length-cipher k d h)
          (splice-overlay old (sealed k) (sealed_piece k)
            ∙ ap (overlay old) (sym (seal-snoc cipher k d)))

    -- What a round leaves.
    pub record Round (k : ℕ) (s after : K.State) : Type 0 where
      pub effect :
          contents after
          ≡ update (contents s) (path_of outfile) (some (overlay old (sealed (suc k))))
      pub kept : K.load key after ≡ some bytes

    pub round :
        (fuel k : ℕ) (s : K.State)
        → k * page_size < 2 ^ 31
        → k * chunk_size < length d
        → length d < 2 ^ 31
        → Progress k s
        → (after : K.State) × (encrypt_loop K C
              (suc fuel)
              infile
              outfile
              key
              (pos (length d - k * chunk_size))
              (pos (k * chunk_size))
              (pos (k * page_size))
              s
            ≡ encrypt_loop K C fuel infile outfile key
                (pos (length d - k * chunk_size - chunk_size))
                (add_int (pos (k * chunk_size)) (pos (length (piece k))))
                (add_int (pos (k * page_size)) (pos (padded_len (length (piece k)))))
                after)
          × Round k s after
    unfolding encrypt_loop choose steps
    round fuel k s near more small p =
        let (page3, found3, length3, other3) = kmalloc_lem K V C key H L s bytes p.key_there in
        let s1 = (K.kmalloc page_size s).1 in
        let same1 = Same-kmalloc K V C key H L page_size s in
        let (page4, found4, length4, other4) =
          kmalloc_lem K V C key H L s1 bytes (same1.at_key ∙ p.key_there) in
        let s2 = (K.kmalloc page_size s1).1 in
        let same2 = Same-trans K V key same1 (Same-kmalloc K V C key H L page_size s1) in
        let m = length d - k * chunk_size in
        let (s3, reads, same3) =
          read_chunk_lem K V C key H L infile (k * chunk_size) (min chunk_size m) page3.bytes s2 d
            (rw same2.files p.source) (omega arith) (omega arith) in
        let rest3 = drop (length (piece k)) page3.bytes in
        let key3 : K.load key s3 ≡ some bytes = same3.at_key ∙ same2.at_key ∙ p.key_there in
        let (s4, encrypts, same4) =
          clone_encryption_lem K V C key H L enc E (c_string bytes) page4.bytes (piece k) rest3 s3
            (short_piece k) length4 in
        let same = Same-trans K V key same2 (Same-trans K V key same3 same4) in
        let rest4 = drop (padded_len (length (piece k))) page4.bytes in
        let (s5, writes, effect, kept) =
          write_block_lem K V C key H L outfile (k * page_size) (sealed_piece k) rest4 s4
            (overlay old (sealed k)) (rw same.files p.target) near
            (omega (
              arith,
              length-sealed_piece k,
              (padded_len_bounds (length (piece k)) (short_piece k)).0,
            )) in
        let freed3 = Same-kfree K V C key H L page3.addr s5 other3 in
        let freed4 = Same-kfree K V C key H L page4.addr (K.kfree page3.addr s5) other4 in
        (
          K.kfree page4.addr (K.kfree page3.addr s5),
          rw
              (
                next_size_lem m,
                size_left_lem m,
                positive,
                found3,
                found4,
                rw (chunk-eq-part K V d k) at reads,
                key_string_lem K V C key H L bytes s3 key3,
                to_u64_small (length (piece k)) (omega (arith, short_piece k)),
                encrypts,
                rw (length-sealed_piece k) at writes,
              )
              refl,
          record {
            effect = freed4.files ∙ freed3.files ∙ effect ∙ rw (same.files, grown k p.within) refl;
            kept = freed4.at_key ∙ freed3.at_key ∙ kept ∙ same.at_key ∙ p.key_there;
          },
        )
      where
        positive : ltb_ℤ (pos 0) (pos (length d - k * chunk_size)) ≡ true
        positive = ground arith
