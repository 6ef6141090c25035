-- ===== src/Tests/UnlinkRuns.antt =====
-- `processunlink` at concrete files.
use asynchronous_file_system.Common.{◌≡◌, refl, pos, none, some, [], codes, update, arith}
use asynchronous_file_system.Kernel.{Buffer}
use asynchronous_file_system.Kernel.Monad.{done, oops}
use asynchronous_file_system.Kernel.Memory.{Machine, memory_kernel, memory_volume, memory_healthy}
use asynchronous_file_system.Unlink.{copy_and_delete, processunlink}
use asynchronous_file_system.Unlink.Result.{copy_and_delete_moves, processunlink_oopses}
use asynchronous_file_system.Tests.Machines.{path, text, machine, args}

abbrev no_page : Buffer
no_page = record { addr = 1; bytes = [] }

copy_and_delete_moves_example :
    (s' : Machine) × (copy_and_delete memory_kernel 1 path
        (codes "/t")
        no_page
        no_page
        no_page
        machine
      ≡ done (pos 0) s')
    × (s'.disk ≡ update (update machine.disk (codes "/t") (some text)) path none)
copy_and_delete_moves_example =
    copy_and_delete_moves memory_kernel memory_volume memory_healthy 1 path (codes "/t") text
      no_page no_page no_page machine refl (omega arith) (omega arith) (λ e. cc)

processunlink_oopses_example :
    (s' : Machine) × (processunlink memory_kernel 1 args machine ≡ oops s')
    × (s'.disk ≡ machine.disk)
processunlink_oopses_example =
    processunlink_oopses memory_kernel memory_volume memory_healthy (λ f n s. refl) 1 args path text
      machine refl refl
