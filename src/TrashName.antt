-- ===== src/TrashName.antt =====
-- The name that a file gets in the trash folder, as sys_xclone2.c builds it in `processunlink`,
-- `processencryption`, `processcompress` and `process_enc_comp`.
pub mod Bounds
use asynchronous_file_system.Common.{
  ℕ, ◌+◌, ◌*◌, ◌/◌, ℤ, pos, ◌+ℤ◌, ◌-ℤ◌, rem_ℤ, quot_ℤ, to_int, List, ◌++◌, codes, format_d,
  format_02d, length,
}
use asynchronous_file_system.Kernel.{Tm}

-- tmp1 = get_time / 60; min = tmp1 % 60; tmp2 = tmp1 / 60; hr = (tmp2 % 24) - 4
abbrev pub minutes : ℕ → ℤ
minutes get_time = to_int (pos (get_time / 60))

unfoldable pub minute : ℕ → ℤ
minute get_time = rem_ℤ (minutes get_time) 60

unfoldable pub hour : ℕ → ℤ
hour get_time = rem_ℤ (quot_ℤ (minutes get_time) 60) 24 -ℤ pos 4

-- The `strcat` and `sprintf` calls that follow the string `root`, up to the underscore.
unfoldable pub stamp : List ℕ → Tm → ℕ → List ℕ
stamp root tm get_time =
    root
    ++ (codes "/trashbin"
        ++ (codes "/"
            ++ (format_d (tm.tm_year +ℤ pos 1900)
                ++ (codes "-"
                    ++ (format_02d tm.tm_mon
                        ++ (codes "-"
                            ++ (format_02d tm.tm_mday
                                ++ (codes "-"
                                    ++ (format_02d (hour get_time)
                                        ++ (codes ":"
                                            ++ (format_02d (minute get_time) ++ codes "_")))))))))))

-- What `processunlink` asks `kmalloc` for: strlen("/usr") + sizeof(char) * 9 + strlen(d_name) + 26.
unfoldable pub name_room : List ℕ → ℕ
name_room d_name = length (codes "/usr") + 1 * 9 + length d_name + 26
