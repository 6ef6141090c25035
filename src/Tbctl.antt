-- ===== src/Tbctl.antt =====
-- `main` of tbctl.c, the command that asks for a file to be restored. What `getopt`, `open` and `ioctl`
-- give are arguments.
use asynchronous_file_system.Common.{
  ℕ, ◌-◌, ℤ, pos, is_negative, not, ◌==◌, if◌then◌else◌, Option, none, some, List, [], ◌∷◌,
}

-- How the loop over the options ends; `filename` is none while it is not set.
pub data Options : Type 0 where
  operand : Option (List ℕ) → Options
  usage : Options
  abort : Options

-- The values that `getopt` returns before its -1, each with what it leaves in `optind`.
unfoldable pub parse_options : (ℕ → List ℕ) → List (ℕ × ℕ) → Option (List ℕ) → Options
parse_options argv [] filename = operand filename
parse_options argv ((c, optind) ∷ opts) filename =
    let rest = parse_options argv opts (some (argv (optind - 1))) in
    if c == b'u' then rest else if c == b'?' then usage else abort

pub data MainEnd : Type 0 where
  return_code : ℤ → MainEnd
  aborted : MainEnd

-- `fd_of` is what `open` gives for the name, or for the pointer that is not set.
unfoldable pub ask_kernel : (Option (List ℕ) → ℤ) → (ℤ → ℤ) → Options → MainEnd
ask_kernel fd_of ioctl usage = return_code (pos 1)
ask_kernel fd_of ioctl abort = aborted
ask_kernel fd_of ioctl (operand filename) =
    if is_negative (fd_of filename)
    then return_code (pos 0)
    else return_code (ioctl (fd_of filename))

-- A wrong number of arguments, and a file that cannot be opened, return 0.
unfoldable pub main : ℕ → (ℕ → List ℕ) → List (ℕ × ℕ) → (Option (List ℕ) → ℤ) → (ℤ → ℤ) → MainEnd
unfolding ask_kernel parse_options
main argc argv opts fd_of ioctl =
    if not (argc == 3)
    then return_code (pos 0)
    else ask_kernel fd_of ioctl (parse_options argv opts none)
