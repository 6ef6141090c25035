-- ===== src/Tests/AsyncRuns.antt =====
-- Runs of the work queue and of the asynchronous call.
use asynchronous_file_system.Common.{
  ℕ, ◌+◌, ◌≡◌, refl, ◌≤◌, ◌⊎◌, pos, true, false, some, [], ◌∷◌, codes, arith, ℕ_discrete, add_int,
}
use asynchronous_file_system.CommandLine.Parse.{mask}
use asynchronous_file_system.Async.{xclone2async}
use asynchronous_file_system.Async.Queue.{
  System, Producer, start, test, enter, linked, returned, overrun,
}
use asynchronous_file_system.Async.Moves.{Insert, Calls, none_yet, one_more, update}
use asynchronous_file_system.Async.Stuck.{IsWaiting, one_call_at_most}
use asynchronous_file_system.Async.Settles.{call_moves, HasReturned, CanMove, one_call_returns}
use asynchronous_file_system.Async.Requests.{xclone2async_queues}

abbrev job : ℕ → ℕ
job i = 100 + i

abbrev waiting_calls : ℕ → Producer
waiting_calls i = start (job i)

abbrev call_done : ℕ → Producer
call_done =
    update (update (update (update waiting_calls 0 (test 100)) 0 (enter 100)) 0 (linked 100)) 0
      (returned (pos 0))

-- Call 0 after `insert_into_head_job`, the others before it.
abbrev one_queued : System
one_queued = record {
  shared = record {
    locked = true;
    wq_size = pos 1;
    t_producers = pos 0;
    jobs = 100 ∷ [];
    node_room = 32;
  };
  producers = call_done;
}

one_queued-Calls : Calls job one_queued
unfolding ℕ_discrete add_int
one_queued-Calls =
    one_more
      (one_more (one_more (one_more (none_yet 32) 0 (Insert.lock refl)) 0 (Insert.has_room refl)) 0
        (Insert.link (omega arith)))
      0 Insert.count

one_call_at_most_example : IsWaiting (call_done 0) ⊎ IsWaiting (call_done 1)
one_call_at_most_example = one_call_at_most one_queued-Calls 0 1 (λ e. absurd (cc))

xclone2async_queues_example :
    xclone2async
      (some (record { fname = some (codes "big"); b1 = 0 }))
      (mask true false true)
      (λ q. pos 0)
    ≡ record {
      result = pos 0;
      job = some (record { fname = some (codes "big"); b1 = mask true false true });
    }
xclone2async_queues_example = xclone2async_queues (codes "big") 0 true false true (λ q. pos 0)

one_call_returns_example :
    (call_moves one_queued-Calls ≤ 4)
    × ((i : ℕ) × (HasReturned (one_queued.producers i)
          ⊎ CanMove one_queued.shared (one_queued.producers i)))
one_call_returns_example = one_call_returns one_queued-Calls (omega arith)

-- The allocator hands out eight bytes, and call 0 has written past them.
abbrev one_overrun : System
one_overrun = record {
  shared = record { locked = true; wq_size = pos 0; t_producers = pos 0; jobs = []; node_room = 8 };
  producers = update (update (update waiting_calls 0 (test 100)) 0 (enter 100)) 0 overrun;
}
