-- ===== src/Async/Requests.antt =====
-- Which requests the asynchronous call queues.
use asynchronous_file_system.Common.{
  ℕ, ◌≡◌, refl, ℤ, pos, Bool, true, false, if◌then◌else◌, none, some, List,
}
use asynchronous_file_system.Param.{Param}
use asynchronous_file_system.CommandLine.Parse.{mask}
use asynchronous_file_system.Async.{wants_move, xclone2async}

wants_move-mask : (m c e : Bool) → wants_move (mask m c e) ≡ m
unfolding wants_move mask
wants_move-mask true true true = refl
wants_move-mask true true false = refl
wants_move-mask true false true = refl
wants_move-mask true false false = refl
wants_move-mask false true true = refl
wants_move-mask false true false = refl
wants_move-mask false false true = refl
wants_move-mask false false false = refl

-- A request of the command with a file name is queued, with its mask, exactly if it has -m, and then
-- the call returns what the insertion does; otherwise it returns 0.
pub xclone2async_queues :
    (fname : List ℕ) (old : ℕ) (m c e : Bool) (inserted : Param → ℤ)
    → let queued : Param = record { fname = some fname; b1 = mask m c e } in
      xclone2async (some (record { fname = some fname; b1 = old })) (mask m c e) inserted ≡ (
        if m
        then record { result = inserted queued; job = some queued }
        else record { result = pos 0; job = none })
unfolding xclone2async
xclone2async_queues fname old m c e inserted = rw (wants_move-mask m c e) refl
