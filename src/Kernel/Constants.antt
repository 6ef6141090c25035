-- ===== src/Kernel/Constants.antt =====
-- The numbers of the kernel's headers that the modules use.
use asynchronous_file_system.Common.{ℕ, bit_or}

abbrev pub page_size : ℕ
page_size = 4096

abbrev pub path_max : ℕ
path_max = 4096

abbrev pub o_rdonly : ℕ
o_rdonly = 0

-- O_WRONLY | O_CREAT
abbrev pub o_wronly_creat : ℕ
o_wronly_creat = bit_or 1 64

-- 0644
abbrev pub mode_0644 : ℕ
mode_0644 = 0o644

abbrev pub eperm : ℕ
eperm = 1

abbrev pub enomem : ℕ
enomem = 12

abbrev pub efault : ℕ
efault = 14

abbrev pub einval : ℕ
einval = 22
