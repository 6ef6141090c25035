-- ===== src/Async/Queue.antt =====
-- The work queue of sys_xclone2async.c as the calls see it while no consumer is at work: what they
-- share, where each may stand, and the start.
use asynchronous_file_system.Common.{ℕ, ℤ, pos, Bool, false, List, []}

-- WQ_maxsize, max_producers and max_consumers
abbrev pub wq_maxsize : ℕ
wq_maxsize = 2

abbrev pub max_producers : ℕ
max_producers = 2

-- sizeof(struct wq_node): a pointer and a `list_head` of two pointers.
abbrev pub sizeof_wq_node : ℕ
sizeof_wq_node = 24

-- `wi_queue`, `t_producers`, and how many bytes the allocator hands out for the eight that
-- `kmalloc(sizeof(struct wq_node *))` asks for.
pub record Shared : Type 0 where
  pub locked : Bool
  pub wq_size : ℤ
  pub t_producers : ℤ
  pub jobs : List ℕ
  pub node_room : ℕ

-- A thread in `insert_into_head_job`, with the address of its job.
pub data Producer : Type 0 where
  start : ℕ → Producer  -- before `mutex_lock`
  test : ℕ → Producer  -- at the test of the `while`
  full : ℕ → Producer  -- before `mutex_unlock`
  throttle : ℕ → Producer  -- before the test of `t_producers`
  admitted : ℕ → Producer  -- before `atomic_inc` of it
  waiting : ℕ → Producer  -- in `wait_event_interruptible`
  woken : ℕ → Producer  -- before `atomic_dec` of it
  enter : ℕ → Producer  -- behind the loop
  linked : ℕ → Producer  -- before `atomic_inc` of the size
  returned : ℤ → Producer
  overrun : Producer  -- stopped at a write past the allocation of the node

-- Each system call is a thread of its own.
pub record System : Type 0 where
  pub shared : Shared
  pub producers : ℕ → Producer

-- `initialise_wq`, before any call, where call `i` will bring the job `job i`.
abbrev pub initialise_wq : ℕ → (ℕ → ℕ) → System
initialise_wq node_room job = record {
  shared = record {
    locked = false;
    wq_size = pos 0;
    t_producers = pos 0;
    jobs = [];
    node_room = node_room;
  };
  producers = λ i. start (job i);
}
