-- ===== src/Fragments.antt =====
-- The two fragments that no build uses: compression.c, an earlier copy of the helpers on files, and
-- read_write.c, the loop of a system call that compares two files.
pub mod Compression
pub mod Dedup
