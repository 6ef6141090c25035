-- ===== src/Compress/Packer.antt =====
-- What the compression relies on besides a healthy volume, and `compress_buffer` over it.
use asynchronous_file_system.Common.{
  ℕ, ◌^◌, ◌≤◌, ◌<◌, ◌≡◌, ◌∙◌, refl, ℤ, pos, to_int, to_int_small, to_u32, to_u32_small, le→leb,
  some, List, ◌++◌, length, drop, length-append, take-length-append, arith,
}
use asynchronous_file_system.Kernel.{Kernel, Buffer}
use asynchronous_file_system.Kernel.Constants.{page_size}
use asynchronous_file_system.Kernel.Monad.{valid, done, choose, if_bad, steps}
use asynchronous_file_system.Kernel.Volume.{Volume, IsHealthy}
use asynchronous_file_system.Compress.{Compressor, compress_buffer}

-- A compressor that fails only where its output does not fit; `kmalloc` hands out as many bytes as
-- it is asked for; and the calls touch no file.
pub record IsPacker (K : Kernel) (V : Volume K) (Z : Compressor K.State) (comp : List ℕ → List ℕ)
    : Type 0 where
  pub alloc_valid : (s : K.State) → (t : Z.Tfm) × ((Z.alloc_comp s).0 ≡ valid t)
  pub alloc_keeps : (s : K.State) → V.contents (Z.alloc_comp s).1 ≡ V.contents s
  pub compress_result :
      (t : Z.Tfm) (input : List ℕ) (n : ℕ) (s : K.State)
      → length (comp input) ≤ n
      → (Z.comp_compress t input n s).0 ≡ (pos 0, comp input, length (comp input))
  pub compress_keeps :
      (t : Z.Tfm) (input : List ℕ) (n : ℕ) (s : K.State)
      → V.contents (Z.comp_compress t input n s).1 ≡ V.contents s
  pub kmalloc_length :
      (n : ℕ) (s : K.State) (b : Buffer) → (K.kmalloc n s).0 ≡ some b → length b.bytes ≡ n

-- What `compress_file` takes for numbers: the address of four bytes, as the room for the output, is at
-- least a page, and an array that is not set has its length.
pub record IsRoomy (K : Kernel) : Type 0 where
  pub address_room :
      (s : K.State) (b : Buffer)
      → (K.kmalloc 4 s).0 ≡ some b
      → page_size ≤ to_u32 (to_int (pos b.addr))
  pub length-garbage : (n : ℕ) (s : K.State) → length (K.garbage n s) ≡ n

module _ (K : Kernel) (V : Volume K) (H : IsHealthy K V) (Z : Compressor K.State)
    (comp : List ℕ → List ℕ) (Q : IsPacker K V Z comp) where
  open V use {contents}

  pub compress_buffer_lem :
      (d rest page : List ℕ) (out_len : ℤ) (s : K.State)
      → length d < 2 ^ 31
      → length (comp d) ≤ to_u32 out_len
      → length (comp d) ≤ length page
      → length page < 2 ^ 31
      → (s' : K.State) × (compress_buffer Z (d ++ rest) (pos (length d)) page out_len s
          ≡ done
              (record {
                ret = pos (length (comp d));
                out_buf = comp d ++ drop (length (comp d)) page;
              })
              s')
        × (contents s' ≡ contents s)
  unfolding compress_buffer choose if_bad steps
  compress_buffer_lem d rest page out_len s small room fits short =
      let (t, allocated) = Q.alloc_valid s in
      let n = to_u32 out_len in
      let s1 = (Z.alloc_comp s).1 in
      (
        (Z.comp_compress t d n s1).1,
        rw
            (
              allocated,
              to_u32_small (length d) (omega arith),
              le→leb (length d) (length (d ++ rest)) (omega (arith, length-append d rest)),
              take-length-append d rest,
              Q.compress_result t d n s1 room,
              le→leb (length (comp d)) (length page) fits,
              to_int_small (length (comp d)) (omega arith),
            )
            refl,
        Q.compress_keeps t d n s1 ∙ Q.alloc_keeps s,
      )
