-- ===== src/Encrypt/Chunk.antt =====
-- The sizes of the chunks, and the read of one, which the loops of the encryption and of the
-- compression share.
use asynchronous_file_system.Common.{
  ℕ, ◌-◌, ◌^◌, ◌<◌, ◌≡◌, refl, ◌∙◌, pos, ◌-ℤ◌, min, to_int_small, to_u64_small, some, List, ◌++◌,
  length, take, drop, length-take, length-drop, take_all, ◌*◌, ap, inl, inr, leb, Bool-cases, arith,
}
use asynchronous_file_system.Kernel.{Kernel}
use asynchronous_file_system.Kernel.Monad.{done, steps}
use asynchronous_file_system.Kernel.Volume.{Volume, IsHealthy, chunk}
use asynchronous_file_system.Encrypt.{next_size, size_left, read_chunk}
use asynchronous_file_system.Encrypt.Seal.{chunk_size}

pub next_size_lem : (m : ℕ) → next_size (pos m) ≡ pos (min chunk_size m)
unfolding next_size
next_size_lem m = ground arith

pub size_left_lem : (m : ℕ) → size_left (pos m) ≡ pos (m - chunk_size)
unfolding size_left ◌-ℤ◌
size_left_lem m = ground arith

take-min : (n : ℕ) (xs : List ℕ) → take (min n (length xs)) xs ≡ take n xs
take-min n xs = elim (Bool-cases (leb n (length xs))) [
  | inl h ↦ ap (λ (k : ℕ). take k xs) (ground arith)
  | inr h ↦
      let e : min n (length xs) ≡ length xs = ground arith in
      rw (e, take_all (length xs) xs (omega arith), take_all n xs (ground arith))
]

-- Chunk `k` of a file.
abbrev pub part : List ℕ → ℕ → List ℕ
part d k = take chunk_size (drop (k * chunk_size) d)

pub length-part :
    (d : List ℕ) (k : ℕ) → length (part d k) ≡ min chunk_size (length d - k * chunk_size)
length-part d k =
    length-take chunk_size (drop (k * chunk_size) d) ∙ omega (arith, length-drop (k * chunk_size) d)

pub chunk-eq-part :
    (K : Kernel) (V : Volume K) (d : List ℕ) (k : ℕ)
    → chunk K V (min chunk_size (length d - k * chunk_size)) (k * chunk_size) d ≡ part d k
chunk-eq-part K V d k =
    rw (← length-drop (k * chunk_size) d) (take-min chunk_size (drop (k * chunk_size) d))

module _ (K : Kernel) (V : Volume K) (H : IsHealthy K V) where
  open V use {contents, path_of}

  -- The state behind a read.
  abbrev pub read_state : K.File → List ℕ → ℕ → ℕ → K.State → K.State
  read_state f buf n o s = K.set_fs (K.get_fs s) (K.vfs_read f buf n o (K.set_fs K.kernel_ds s)).1

  pub read_chunk_runs :
      (f : K.File) (o n : ℕ) (buf : List ℕ) (s : K.State) (d : List ℕ)
      → contents s (path_of f) ≡ some d
      → n < 2 ^ 31
      → o < 2 ^ 31
      → read_chunk K f buf (pos n) (pos o) s
        ≡ done
            (pos (length (chunk K V n o d)), chunk K V n o d ++ drop (length (chunk K V n o d)) buf)
            (read_state f buf n o s)
  unfolding read_chunk steps
  read_chunk_runs f o n buf s d e small near =
      rw
        (
          to_u64_small n (omega arith),
          to_u64_small o (omega arith),
          H.read_result f buf n o (K.set_fs K.kernel_ds s) d (rw (H.set_fs_keeps K.kernel_ds s) e),
          to_int_small (length (chunk K V n o d)) (omega (arith, length-take n (drop o d))),
        )
        refl

  pub read_state_keeps :
      (f : K.File) (buf : List ℕ) (n o : ℕ) (s : K.State)
      → contents (read_state f buf n o s) ≡ contents s
  read_state_keeps f buf n o s =
      H.set_fs_keeps _ _ ∙ H.read_keeps f buf n o _ ∙ H.set_fs_keeps K.kernel_ds s
