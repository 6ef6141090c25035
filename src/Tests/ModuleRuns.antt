-- ===== src/Tests/ModuleRuns.antt =====
-- Loading and unloading the modules at a concrete kernel.
use asynchronous_file_system.Common.{
  ℕ, ◌+◌, ◌≡◌, refl, pos, false, true, some, List, codes, replicate, update,
}
use asynchronous_file_system.Kernel.{Kernel}
use asynchronous_file_system.Kernel.Monad.{valid, overrun, choose, if_null, if_bad, steps}
use asynchronous_file_system.Kernel.Memory.{Machine, memory_kernel}
use asynchronous_file_system.Trashbin.{Directories, create_trashbin, create_trashbin_async}
use asynchronous_file_system.Trashbin.Room.{create_trashbin_overruns}
use asynchronous_file_system.Modules.{
  xclone2, xclone2async, xclone2_myorg, set_sysptr, Threads, initialise_wq, init_sys_xclone2,
  init_sys_xclone2async,
}
use asynchronous_file_system.Older as Older
use asynchronous_file_system.Modules.Sysptr.{
  Modules, Booted, boot, after, load_sync, load_async, load_myorg, mark, Call_discrete,
  Booted-IsOwned,
}
use asynchronous_file_system.Tests.Machines.{machine}

-- An allocator that rounds up, as the slab allocator does.
abbrev rounding_kernel : Kernel
rounding_kernel = record memory_kernel {
  kmalloc = λ n s. (some (record { addr = 1; bytes = replicate (n + 3) 0 }), s);
}

abbrev directories : Directories Machine
directories = record {
  Dentry = List ℕ;
  kern_path_create = λ p s. (valid p, s);
  done_path_create = λ d s. s;
  inode_lock_nested = λ d s. s;
  vfs_mkdir = λ d s. (pos 0, record s { disk = update s.disk d (some (codes "")) });
  inode_unlock = λ d s. s;
}

abbrev threads : Threads Machine
threads = record {
  Task = Unit {0};
  kthread_create = λ s. (valid tt, s);
  wake_up_process = λ t s. s;
  sizeof_w_queue = 48;
  sizeof_wq_node = 24;
}

create_trashbin_overruns_example :
    create_trashbin memory_kernel directories machine ≡ overrun machine
create_trashbin_overruns_example =
    create_trashbin_overruns memory_kernel directories machine _ refl refl

abbrev with_folder : Machine
with_folder = record machine {
  disk = update machine.disk (codes "/usr/trashbin") (some (codes ""));
}

abbrev again : Machine
again = record machine { disk = update with_folder.disk (codes "/usr/trashbin") (some (codes "")) }

-- All three modules are loaded, the synchronous one first, so the pointer is its function.
abbrev all_in : Modules Machine
all_in = record {
  kernel = again;
  sysptr = some xclone2;
  head = some 1;
  is_in = mark xclone2_myorg true (mark xclone2async true (mark xclone2 true (λ c. false)));
}

all_in-Booted : Booted rounding_kernel directories threads all_in
unfolding create_trashbin create_trashbin_async init_sys_xclone2 init_sys_xclone2async
    Older.init_sys_xclone2 initialise_wq set_sysptr choose if_null if_bad steps Call_discrete
all_in-Booted =
    after
      (after
        (after (boot machine)
          (load_sync {r = pos 0} {p = some xclone2} {k = with_folder} refl refl))
        (load_async {r = pos 0} {p = some xclone2} {h = some 1} {k = again} refl refl))
      (load_myorg refl)

Booted-IsOwned_example : all_in.is_in xclone2 ≡ true
Booted-IsOwned_example =
    Booted-IsOwned rounding_kernel directories threads xclone2 all_in-Booted refl
