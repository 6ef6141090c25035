-- ===== src/Modules.antt =====
-- Loading and unloading the modules: the init and exit functions of sys_xclone2.c and
-- sys_xclone2async.c, and the pointer `sysptr`, which the module of sys_xclone2_myorg.c takes too.
pub mod Sysptr
use asynchronous_file_system.Common.{ℕ, ℤ, pos, minus, eqb_ℤ, Bool, Option, none, some}
use asynchronous_file_system.Kernel.{Kernel}
use asynchronous_file_system.Kernel.Constants.{enomem}
use asynchronous_file_system.Kernel.Monad.{
  Pointer, M, ◌>>=◌, ◌>>◌, pure, call, run, fault, choose, if_null, if_bad,
}
use asynchronous_file_system.Trashbin.{Directories, create_trashbin, create_trashbin_async}

-- The functions that `sysptr` may point to: `xclone2` of sys_xclone2.c, `xclone2async`, and `xclone2`
-- of sys_xclone2_myorg.c.
pub data Call : Type 0 where
  xclone2 : Call
  xclone2async : Call
  xclone2_myorg : Call

-- if (sysptr == NULL) sysptr = call;
unfoldable pub set_sysptr : Call → Option Call → Option Call
set_sysptr call none = some call
set_sysptr call (some other) = some other

-- if (sysptr != NULL) sysptr = NULL;
unfoldable pub clear_sysptr : Option Call → Option Call
clear_sysptr none = none
clear_sysptr (some other) = none

-- The threads of the work queue, on the kernel's state, and the sizes of its structures.
pub record Threads (S : Type 0) : Type 1 where
  pub Task : Type 0
  pub kthread_create : S → Pointer Task × S
  pub wake_up_process : Task → S → S
  pub sizeof_w_queue : ℕ
  pub sizeof_wq_node : ℕ

module _ (K : Kernel) (D : Directories K.State) where
  open K use {State}

  -- What `create_trashbin` returns is dropped.
  unfoldable pub init_sys_xclone2 : Option Call → M State (ℤ × Option Call)
  init_sys_xclone2 sysptr = do err ← create_trashbin K D; pure (pos 0, set_sysptr xclone2 sysptr)

  unfoldable pub exit_sys_xclone2 : Option Call → M State (Option Call)
  exit_sys_xclone2 sysptr = pure (clear_sysptr sysptr)

  module _ (T : Threads State) where
    -- The head node that `initialise_wq` leaves in `wi_queue`, with its result. What `kthread_create`
    -- gives is not tested.
    unfoldable pub initialise_wq : M State (ℤ × Option ℕ)
    initialise_wq = do
      wi_queue ← call (K.kmalloc T.sizeof_w_queue)
      if_null wi_queue (pure (minus enomem, none)) λ q. do
        w_qnode ← call (K.kmalloc T.sizeof_wq_node)
        if_null w_qnode (pure (minus enomem, none)) λ node. do
          task0 ← call T.kthread_create
          task1 ← call T.kthread_create
          if_bad task0 (λ _. fault)
              λ t0. do
                run (T.wake_up_process t0)
                if_bad task1 (λ _. fault)
                    λ t1. do run (T.wake_up_process t1); pure (pos 0, some node.addr)

    -- The result, the pointer, and the head node. An error of `initialise_wq` is only printed.
    unfoldable pub init_sys_xclone2async : Option Call → M State (ℤ × Option Call × Option ℕ)
    init_sys_xclone2async sysptr = do
      err1 ← create_trashbin_async K D
      (err, head) ← initialise_wq
      choose (eqb_ℤ err (pos 0)) (pure (pos 0, set_sysptr xclone2async sysptr, head))
          (pure (pos 0, sysptr, head))

    -- The loop over the list has an empty body, so what is freed is the head node. It follows poison if
    -- the head has been taken out of its ring, and a null pointer without a queue. Nothing stops the
    -- threads.
    unfoldable pub exit_sys_xclone2async : Option ℕ → Bool → Option Call → M State (Option Call)
    exit_sys_xclone2async head in_ring sysptr =
        if_null head fault
          λ node. choose in_ring (do run (K.kfree node); pure (clear_sysptr sysptr)) fault
