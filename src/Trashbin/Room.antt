-- ===== src/Trashbin/Room.antt =====
-- The allocation for the path of the trash folder.
use asynchronous_file_system.Common.{◌≡◌, refl, some, length}
use asynchronous_file_system.Kernel.{Kernel, Buffer}
use asynchronous_file_system.Kernel.Monad.{overrun, if_null, steps}
use asynchronous_file_system.Trashbin.{Directories, trashbin_room, create_trashbin}

-- With an allocator that hands out no more bytes than it is asked for, `create_trashbin` writes past
-- its allocation whenever there is memory, before it has looked for the folder.
pub create_trashbin_overruns :
    (K : Kernel) (D : Directories K.State) (s : K.State) (b : Buffer)
    → (K.kmalloc trashbin_room s).0 ≡ some b
    → length b.bytes ≡ trashbin_room
    → create_trashbin K D s ≡ overrun (K.kmalloc trashbin_room s).1
unfolding create_trashbin if_null steps
create_trashbin_overruns K D s b got exact = rw (got, exact) refl
