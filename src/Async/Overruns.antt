-- ===== src/Async/Overruns.antt =====
-- What the allocation of eight bytes for a node of twenty-four does to the queue.
use asynchronous_file_system.Common.{ℕ, ◌<◌, ◌≡◌, ◌≢◌, pos, []}
use asynchronous_file_system.Async.Queue.{
  sizeof_wq_node, Shared, Producer, start, test, full, throttle, admitted, waiting, woken, enter,
  linked, returned, overrun, System,
}

-- The call has not put its job into the queue, and has not said so.
abbrev pub IsOutside : Producer → Type 0
IsOutside (start j) = Unit
IsOutside (test j) = Unit
IsOutside (full j) = Unit
IsOutside (throttle j) = Unit
IsOutside (admitted j) = Unit
IsOutside (waiting j) = Unit
IsOutside (woken j) = Unit
IsOutside (enter j) = Unit
IsOutside (linked j) = ⊥
IsOutside (returned e) = e ≢ pos 0
IsOutside overrun = Unit

record Nothing (s : System) : Type 0 where
  small : s.shared.node_room < sizeof_wq_node
  empty : s.shared.jobs ≡ []
  size : s.shared.wq_size ≡ pos 0
  outside : (i : ℕ) → IsOutside (s.producers i)

-- A move leaves the queue as it is, and the call outside of it.
record Outside (m m' : Shared) (p' : Producer) : Type 0 where
  jobs : m'.jobs ≡ m.jobs
  size : m'.wq_size ≡ m.wq_size
  outside : IsOutside p'
