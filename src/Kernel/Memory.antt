-- ===== src/Kernel/Memory.antt =====
-- A kernel whose volume is a map from names to bytes. It shows that the hypotheses of the theorems
-- can be met, and runs the modules on concrete files.
use asynchronous_file_system.Common.{
  ℕ, zero, suc, ◌+◌, ◌*◌, ◌%◌, ◌^◌, ◌≡◌, refl, ap, ℤ, pos, minus, Option, none, some, List, ◌++◌,
  map, length, take, drop, splice, update, update_ne, sym, replicate, ◌==◌, if◌then◌else◌,
}
use asynchronous_file_system.Kernel.{Buffer, Transfer, Kernel}
use asynchronous_file_system.Kernel.Monad.{Pointer, valid, err_ptr}
use asynchronous_file_system.Kernel.Volume.{Volume, IsHealthy, or_empty}
use asynchronous_file_system.Kernel.Contained.{IsContained}

pub record Machine : Type 0 where
  pub disk : List ℕ → Option (List ℕ)
  pub limit : ℕ
  pub clock : ℕ
  pub flag : ℕ
  pub slab : ℕ → Option (List ℕ)

abbrev pub open_mode : ℕ → List ℕ → Option (List ℕ) → Machine → Pointer (List ℕ) × Machine
open_mode zero p none s = (err_ptr 2, s)
open_mode zero p (some d) s = (valid p, s)
open_mode (suc flags) p old s = (valid p, record s { disk = update s.disk p (some (or_empty old)) })

abbrev pub read_at : List ℕ → List ℕ → ℕ → Transfer
read_at found buf o = record {
  count = pos (length found);
  bytes = found ++ drop (length found) buf;
  f_pos = o + length found;
}

abbrev pub unlink_code : Option (List ℕ) → ℤ
unlink_code none = minus 2
unlink_code (some d) = pos 0

-- `d_path` without a buffer finds nothing.
abbrev in_buffer : Option Buffer → List ℕ → Option (List ℕ)
in_buffer none p = none
in_buffer (some b) p = some p

-- Fresh memory holds the byte `fill`.
abbrev pub filled_kernel : ℕ → Kernel
filled_kernel fill = record {
  State = Machine;
  File = List ℕ;
  kmalloc = λ n s. (some (record { addr = 0x1000; bytes = replicate n fill }), s);
  kfree = λ a s. record s { slab = λ x. if x == a then none else s.slab x };
  load = λ a s. s.slab a;
  store = λ a b s. record s { slab = λ x. if x == a then some b else s.slab x };
  kernel_ds = 1;
  get_fs = λ s. s.limit;
  set_fs = λ l s. record s { limit = l };
  filp_open = λ p flags mode s. open_mode flags p (s.disk p) s;
  filp_close = λ f s. s;
  vfs_read = λ f buf n o s. (read_at (take n (drop o (or_empty (s.disk f)))) buf o, s);
  vfs_write = λ f bytes o s. (
    record { count = pos (length bytes); bytes = bytes; f_pos = o + length bytes },
    record s { disk = update s.disk f (some (splice (or_empty (s.disk f)) o bytes)) },
  );
  i_size_read = λ f s. length (or_empty (s.disk f));
  d_name = λ f s. f;
  d_path = λ f b n s. in_buffer b f;
  strreplace = λ p a b. map (λ c. if c == a then b else c) p;
  i_mutex_lock = λ f s. s;
  i_mutex_unlock = λ f s. s;
  vfs_unlink = λ f s. (unlink_code (s.disk f), record s { disk = update s.disk f none });
  vfs_setxattr = λ f name value s. (pos 0, s);
  garbage = λ n s. replicate n 0x55;
  xclone_flag = λ s. s.flag;
  do_gettimeofday = λ s. s.clock % (60 * 2 ^ 31);
  time_to_tm = λ t. record { tm_year = pos 118; tm_mon = pos 3; tm_mday = pos 7 };
}

abbrev pub filled_volume : (fill : ℕ) → Volume (filled_kernel fill)
filled_volume fill = record { contents = λ s. s.disk; path_of = λ f. f }

abbrev pub memory_kernel : Kernel
memory_kernel = filled_kernel 0xaa

abbrev pub memory_volume : Volume memory_kernel
memory_volume = filled_volume 0xaa

open_mode_valid :
    (p : List ℕ) (o : Option (List ℕ)) (s : Machine) (d : List ℕ)
    → o ≡ some d
    → (f : List ℕ) × ((open_mode 0 p o s).0 ≡ valid f) × (f ≡ p)
open_mode_valid p none s d e = absurd (cc)
open_mode_valid p (some c) s d e = (p, refl, refl)

open_mode_keeps :
    (p : List ℕ) (o : Option (List ℕ)) (s : Machine) → (open_mode 0 p o s).1.disk ≡ s.disk
open_mode_keeps p none s = refl
open_mode_keeps p (some d) s = refl

pub filled_healthy : (fill : ℕ) → IsHealthy (filled_kernel fill) (filled_volume fill)
filled_healthy fill = record {
  kmalloc_some = λ n s. (_, refl);
  kmalloc_keeps = λ n s. refl;
  kfree_keeps = λ a s. refl;
  set_fs_keeps = λ l s. refl;
  close_keeps = λ f s. refl;
  lock_keeps = λ f s. refl;
  unlock_keeps = λ f s. refl;
  open_valid = λ p mode s d e. open_mode_valid p (s.disk p) s d e;
  open_keeps = λ p mode s. open_mode_keeps p (s.disk p) s;
  creat_valid = λ p mode s. (p, refl, refl);
  creat_contents = λ p mode s. refl;
  read_result = λ f b n o s d e. rw e refl;
  read_keeps = λ f b n o s. refl;
  write_result = λ f bytes o s d e. refl;
  write_contents = λ f bytes o s d e. rw e refl;
  unlink_result = λ f s d e. ap unlink_code e;
  unlink_contents = λ f s. refl;
  size = λ f s d e. rw e refl;
}

open_mode_path :
    (p : List ℕ) (flags : ℕ) (o : Option (List ℕ)) (s : Machine) (f : List ℕ)
    → (open_mode flags p o s).0 ≡ valid f
    → f ≡ p
open_mode_path p zero none s f e = absurd (cc)
open_mode_path p zero (some d) s f e = cc
open_mode_path p (suc flags) o s f e = cc

pub memory_contained : IsContained memory_kernel memory_volume
memory_contained = record {
  kmalloc_keeps = λ n s. refl;
  kfree_keeps = λ a s. refl;
  set_fs_keeps = λ l s. refl;
  close_keeps = λ f s. refl;
  lock_keeps = λ f s. refl;
  unlock_keeps = λ f s. refl;
  open_path = λ p flags mode s f e. open_mode_path p flags (s.disk p) s f e;
  open_keeps = λ p mode s. open_mode_keeps p (s.disk p) s;
  creat_other = λ p mode s q other. update_ne s.disk p q _ (λ e. other (sym e));
  read_keeps = λ f b n o s. refl;
  write_other = λ f bytes o s q other. update_ne s.disk f q _ (λ e. other (sym e));
  unlink_other = λ f s q other. update_ne s.disk f q _ (λ e. other (sym e));
  setxattr_keeps = λ f name value s. refl;
}

pub memory_healthy : IsHealthy memory_kernel memory_volume
memory_healthy = filled_healthy 0xaa
