-- ===== src/Tests/CommandRuns.antt =====
-- The command, the names in the trash folder and the padding, at concrete inputs.
use asynchronous_file_system.Common.{
  true, false, ◌+◌, ◌%◌, ◌≤◌, ◌<◌, ◌≡◌, ◌↔◌, refl, pos, some, ◌++◌, codes, length, arith,
}
use asynchronous_file_system.Kernel.Constants.{page_size}
use asynchronous_file_system.Kernel.Memory.{memory_kernel}
use asynchronous_file_system.TrashName.{minute, hour, stamp, name_room}
use asynchronous_file_system.TrashName.Bounds.{stamp_fits}
use asynchronous_file_system.Common.{format_d, format_02d, decimal, ◌+ℤ◌, ◌-ℤ◌, rem_ℤ, quot_ℤ}
use asynchronous_file_system.Cipher.{padded, padded_len, zero_padding}
use asynchronous_file_system.Cipher.Padding.{unpad, padded_len_bounds, unpad-padded}
use asynchronous_file_system.CommandLine.{exit_code, main, system_call, xclone2async}
use asynchronous_file_system.CommandLine.Parse.{mask, main_requests, system_call_by_size}
use asynchronous_file_system.Tests.Machines.{memory_calendar, path}

-- 16:34 UTC shows as 12:34; a month is printed from 0.
stamp_example :
    stamp (codes "/usr") (memory_kernel.time_to_tm 59_674) 59_674
    ≡ codes "/usr/trashbin/2018-03-07-12:34_"
unfolding stamp minute hour format_d format_02d decimal ◌+ℤ◌ ◌-ℤ◌ rem_ℤ quot_ℤ
stamp_example = refl

stamp_fits_example :
    (length (stamp (codes "/usr") (memory_kernel.time_to_tm 59_674) 59_674 ++ codes "[a.txt") + 1
      ≤ name_room (codes "a.txt"))
    ↔ (length (codes "[a.txt") ≤ length (codes "a.txt") + 7)
stamp_fits_example =
    stamp_fits (memory_kernel.time_to_tm 59_674) 59_674 (codes "[a.txt") (codes "a.txt")
      (memory_calendar.date 59_674) (omega arith)

padded_len_bounds_example :
    (padded_len 4080 ≤ page_size)
    × (padded_len 4080 % 16 ≡ 0)
    × (4080 < padded_len 4080)
    × (zero_padding 4080 ≤ 48)
    × (padded_len 4080 ≡ 4080 + zero_padding 4080)
padded_len_bounds_example = padded_len_bounds 4080 (omega arith)

unpad-padded_example : unpad (padded (codes "hello") 5) ≡ codes "hello"
unpad-padded_example = unpad-padded (codes "hello")

main_requests_example :
    main true true true (codes "em") (some path) (λ child. pos 7)
    ≡ exit_code (pos 0) (
        some (record {
          clone_flags = mask true false true;
          param = record { fname = some path; b1 = mask true false true };
        }))
main_requests_example =
    main_requests (codes "em") path (λ child. pos 7) (refl, (refl, tt)) (omega arith)
      (λ child. refl)

system_call_by_size_example : system_call (pos 5000) ≡ xclone2async
system_call_by_size_example = system_call_by_size 5000 (omega arith)
