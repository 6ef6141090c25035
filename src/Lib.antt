-- ===== src/Lib.antt =====
-- Asynchronous file system: a command that moves a file to a trash folder, with compression and
-- encryption, through two kernel modules and three entries of /proc.
--
-- The user's command, xclone2.c (CommandLine), turns its options into a mask, starts a child by
-- `clone` with the mask as flags, and the child calls the synchronous or the asynchronous system
-- call by the size of the file. The synchronous one, `xclone2` in sys_xclone2.c (Dispatch), reads
-- the mask from the task and runs one of four operations: `processunlink` (Unlink),
-- `processcompress` (Compress), `processencryption` (Encrypt) and `process_enc_comp`
-- (EncryptCompress). They share the helpers on open files (FileIo), the name of the trash file
-- (TrashName) and the cipher (Cipher). The key of the encryption comes from proc_key.c (ProcKey);
-- proc_file_num.c is ProcNumber and proc_queue_len.c ProcQueueLen. Proc has what these three call
-- to have an entry in /proc, and ProcEntries their loads and unloads together; Proc/Seq has the
-- operations behind an open entry. tbctl.c, the command that asks for a file back, is Tbctl. params.h
-- and flags.h are Param.
--
-- The asynchronous call, `xclone2async` in sys_xclone2async.c (Async), puts the request into a work
-- queue for two worker threads. Async/Queue has what the calls share and where each may stand, and
-- Async/Moves the steps of `insert_into_head_job` in any order of the calls: a test or a change of what
-- is shared is a step, and `list_add_tail` is one too. How many bytes the allocator hands out for the
-- eight that a node is allocated with is a number of the start, since the node takes 24.
--
-- read_write.c (Fragments/Dedup) and compression.c (Fragments/Compression) are fragments that no
-- build uses: the body of a system call that compares two files, over names that it never sets, which
-- are arguments here, and an earlier copy of the helpers on open files.
--
-- sys_xclone2_myorg.c (Older) is an earlier module that compresses a file and decompresses it
-- again.
--
-- The first two modules make the trash folder (Trashbin) when they are loaded, and all three take the
-- pointer `sysptr` then (Modules).
--
-- The kernel is not in the repository. Kernel has its calls as a record of operations on an unknown
-- state, Cipher.BlockCipher and Compress.Compressor those of the crypto API. Kernel/Monad has the
-- statements of a function: it returns, or stops at an oops (a null or freed pointer is followed),
-- at an overrun (an access past an allocation), or unfinished (the fuel of a loop is too small).
-- Kernel/Volume says what the modules rely on when nothing fails, Kernel/Contained what holds when
-- anything may fail, and Kernel/Memory is a kernel in which both hold. Kernel/Triple is a program
-- logic for invariants that hold at every end, Kernel/Returns one for the returns only. The buffers
-- that `kmalloc` hands out are values here, since no two of them share bytes; the key, which
-- outlives a call and is freed by it, is read at its address.
--
-- An `int` is kept in 32 bits and wraps (Common/Int). A loop takes fuel, one unit a round; a file
-- of n bytes needs n / 4096 + 1 rounds in `processunlink`, and in the encryption and the
-- compression one for each chunk of 4080 bytes and one more for the test that ends the loop. As the
-- size is an `int` there, 526,346 rounds are enough for the encryption and the compression in every
-- kernel (Kernel/Finishes has the rules). The comparison of two pages in `xdedup` needs a round a byte
-- and one more.
--
-- A null buffer that is given to `vfs_read` or to `d_path` as the place to write to counts as a null
-- pointer that is followed, also where the kernel would catch the bad access and return an error.
--
-- Not modelled: printk, the registration of the system call, and what reads the clock with no effect
-- (`getnstimeofday`). `process_item` and `consumer_work_func` of sys_xclone2async.c, since the workers
-- run the list macros of the kernel without the mutex, so that what they do is up to the order of single
-- reads and writes inside these macros. sys_xclone2.mod.c is generated.
pub mod Common
pub mod Kernel
pub mod TrashName
pub mod FileIo
pub mod Param
pub mod Unlink
pub mod Cipher
pub mod Encrypt
pub mod Compress
pub mod EncryptCompress
pub mod Dispatch
pub mod CommandLine
pub mod ProcNumber
pub mod Proc
pub mod ProcQueueLen
pub mod ProcEntries
pub mod Fragments
pub mod ProcKey
pub mod Tbctl
pub mod Async
pub mod Trashbin
pub mod Modules
pub mod Older
mod Tests
