-- ===== src/Fragments/Dedup.antt =====
-- read_write.c, `xdedup`: the loop that compares two files and writes what they have in common to a
-- third. The file ends with the loop, and names what it is about (`filp1`, `stats1`, `path3`) without
-- setting it: these are arguments here, and so are the positions of the files.
pub mod Compare
pub mod Difference
use asynchronous_file_system.Common.{
  ℕ, zero, suc, ◌+◌, ◌==◌, ◌-ℤ◌, ℤ, pos, negsuc, eqb_ℤ, ltb_ℤ, add_int, to_int, to_u64, ltb, Bool,
  true, false, ◌&&◌, not, Option, none, some, List, [], ◌∷◌, take,
}
use asynchronous_file_system.Kernel.{Kernel}
use asynchronous_file_system.Kernel.Constants.{page_size, o_wronly_creat, mode_0644}
use asynchronous_file_system.Kernel.Monad.{
  Outcome, done, overrun, Pointer, ptr_err, M, ◌>>=◌, ◌>>◌, out_of_fuel, pure, call, run, ask,
  deref, fits, choose, if_bad,
}

abbrev pub get_elem? : List ℕ → ℕ → Option ℕ
get_elem? [] i = none
get_elem? (x ∷ xs) zero = some x
get_elem? (x ∷ xs) (suc i) = get_elem? xs i

-- A byte of an allocation.
unfoldable pub byte_at : {S : Type 0} → List ℕ → ℕ → M S ℕ
byte_at buff i s = elim (get_elem? buff i) [ none ↦ overrun s | some c ↦ done c s ]

-- while(*(buff3+i) != '\0' && i < 4096 && *(buff4+i) != '\0'), which ends at the first bytes that differ.
unfoldable pub compare_loop : {S : Type 0} → ℕ → List ℕ → List ℕ → ℕ → M S ℕ
compare_loop zero buff3 buff4 i = out_of_fuel
compare_loop (suc fuel) buff3 buff4 i = do
  a ← byte_at buff3 i
  choose (a == 0) (pure i) (
      choose (ltb i page_size)
        (do
          b ← byte_at buff4 i
          choose (b == 0) (pure i)
              (choose (a == b) (compare_loop fuel buff3 buff4 (i + 1)) (pure i)))
        (pure i))

-- How the loop over the files ends: by its test or `break`, with `file_size` and the three positions,
-- or by a `return`.
pub data DedupEnd : Type 0 where
  ended : ℤ → ℕ → ℕ → ℕ → DedupEnd
  returned : ℤ → DedupEnd

module _ (K : Kernel) where
  open K use {State, File}

  -- `vfs_read` of a page at the position of the file, between two `set_fs`.
  unfoldable pub read_page : File → List ℕ → ℕ → M State (ℤ × List ℕ × ℕ)
  read_page filp buff f_pos = do
    oldfs ← ask K.get_fs
    run (K.set_fs K.kernel_ds)
    r ← call (K.vfs_read filp buff page_size f_pos)
    run (K.set_fs oldfs)
    pure (to_int r.count, r.bytes, r.f_pos)

  -- The files have nothing in common at their start: the output is made, and nothing is written.
  unfoldable pub make_empty : Option (List ℕ) → M State DedupEnd
  make_empty outfile = do
    name ← deref outfile
    filp4 ← call (K.filp_open name o_wronly_creat mode_0644)
    if_bad filp4 (λ p. pure (returned (pos 0 -ℤ ptr_err p))) (λ _. pure (returned (pos 0)))

  -- A short write: the temporary file, whose entry is `path3`, is deleted.
  unfoldable pub give_up : File → M State DedupEnd
  give_up path3 = do
    run (K.i_mutex_lock path3)
    unlink_temp_err ← call (K.vfs_unlink path3)
    run (K.i_mutex_unlock path3)
    choose (eqb_ℤ unlink_temp_err (pos 0)) (pure (returned (pos 0 -ℤ pos 1004)))
        (pure (returned (pos 0 -ℤ unlink_temp_err)))

  -- The `while (file_size < stats1.size)` loop. The address limit that the write raises is not put back,
  -- and the `break` leaves the two pages allocated.
  unfoldable pub xdedup_loop :
      ℕ → File → File → File → File → Option (List ℕ) → ℕ → ℤ → ℕ → ℕ → ℕ → M State DedupEnd
  xdedup_loop zero filp1 filp2 filp3 path3 outfile size file_size p1 p2 p3 = out_of_fuel
  xdedup_loop (suc fuel) filp1 filp2 filp3 path3 outfile size file_size p1 p2 p3 =
      choose (ltb_ℤ file_size (pos size))
        (do
          page3 ← call (K.kmalloc page_size)
          page4 ← call (K.kmalloc page_size)
          buff3 ← deref page3
          (bytes1, text3, p1') ← read_page filp1 buff3.bytes p1
          buff4 ← deref page4
          (bytes2, text4, p2') ← read_page filp2 buff4.bytes p2
          i ← compare_loop (suc page_size) text3 text4 0
          choose (i == 0 && eqb_ℤ file_size (pos 0)) (make_empty outfile) (do
            oldfs3 ← ask K.get_fs
            run (K.set_fs K.kernel_ds)
            w ← call (K.vfs_write filp3 (take i text3) p3)
            choose (eqb_ℤ (pos i) (to_int w.count))
                (choose (ltb i page_size && not (eqb_ℤ (add_int file_size (pos i)) (pos size)))
                  (pure (ended (add_int file_size (pos i)) p1' p2' w.f_pos))
                  (do
                    run (K.kfree buff4.addr)
                    run (K.kfree buff3.addr)
                    xdedup_loop fuel filp1 filp2 filp3 path3 outfile size (add_int file_size bytes1)
                        p1' p2' w.f_pos))
                (give_up path3)))
        (pure (ended file_size p1 p2 p3))
