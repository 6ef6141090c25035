-- ===== src/CommandLine.antt =====
-- `main` and `child_clone` of xclone2.c, the user's command. What `getopt`, `malloc`, `clone`, `stat`
-- and the system calls give are arguments.
pub mod Parse
use asynchronous_file_system.Common.{
  ℕ, ◌+◌, ℤ, pos, minus, to_int, ltb_ℤ, eqb_ℤ, ltb, ◌==◌, if◌then◌else◌, Bool, true, false, not,
  ◌||◌, Option, none, some, List, [], ◌∷◌, length, bit_or,
}
use asynchronous_file_system.Param.{Param, clone_prot_mv, clone_prot_zip, clone_prot_enc}

-- size > 4096 goes to the asynchronous system call. `st_size` is what `st.st_size` holds.
pub data SystemCall : Type 0 where
  xclone2 xclone2async : SystemCall

unfoldable pub system_call : ℤ → SystemCall
system_call st_size = if ltb_ℤ (pos 4096) (to_int st_size) then xclone2async else xclone2

-- `syscall` gives what the kernel returns, or -1.
unfoldable pub child_clone : ℤ → (SystemCall → Param → ℤ) → Param → ℤ
unfolding system_call
child_clone st_size syscall param = syscall (system_call st_size) param

-- How the loop over the options ends.
pub data Options : Type 0 where
  flags : ℕ → Options
  usage : Options
  abort : Options

-- The values that `getopt` returns before its -1, and `params->b1`.
unfoldable pub parse_options : List ℕ → ℕ → Options
parse_options [] b1 = flags b1
parse_options (c ∷ opts) b1 =
    let m = parse_options opts (bit_or b1 clone_prot_mv) in
    let z = parse_options opts (bit_or b1 clone_prot_zip) in
    let e = parse_options opts (bit_or b1 clone_prot_enc) in
    if c == b'm'
    then m
    else if c == b'c'
    then z
    else if c == b'e'
    then e
    else if c == b'?'
    then usage
    else abort

-- A call of `clone`: its flags, and the argument of the child.
pub record Launch : Type 0 where
  pub clone_flags : ℕ
  pub param : Param

-- How the process ends, and the child that it has started.
pub data MainEnd : Type 0 where
  return_code : ℤ → Option Launch → MainEnd
  exit_code : ℤ → Option Launch → MainEnd
  aborted : MainEnd
  -- `strcpy` writes past the allocation of the name
  overflow : MainEnd

-- The masks that the chain of tests on `params->b1` names.
unfoldable pub is_request : ℕ → Bool
is_request b1 =
    b1 == clone_prot_mv
    || (b1 == clone_prot_zip
        || (b1 == clone_prot_enc
            || (b1 == bit_or clone_prot_mv clone_prot_enc
                || (b1 == bit_or clone_prot_mv clone_prot_zip
                    || (b1 == bit_or clone_prot_enc clone_prot_zip
                        || b1 == bit_or (bit_or clone_prot_mv clone_prot_enc) clone_prot_zip)))))

-- From the chain of tests on. Each branch passes its own mask, which is `b1`, to `clone`.
unfoldable pub launch : (Launch → ℤ) → ℕ → List ℕ → MainEnd
unfolding is_request
launch clone b1 fname =
    let child : Launch = record {
      clone_flags = b1;
      param = record { fname = some fname; b1 = b1 };
    } in
    if is_request b1
    then (if eqb_ℤ (clone child) (minus 1)
        then return_code (minus 1) none
        else exit_code (pos 0) (some child))
    else exit_code (pos 0) none

-- From the end of the options. The operand is `argv[optind]`.
unfoldable pub with_operand : (Launch → ℤ) → Options → Option (List ℕ) → MainEnd
unfolding launch
with_operand clone usage operand = return_code (pos 1) none
with_operand clone abort operand = aborted
with_operand clone (flags b1) none = return_code (minus 1) none
with_operand clone (flags b1) (some name) =
    if ltb (length name) 4096 then launch clone b1 name else overflow

-- The three allocations are granted or not; a refused one returns -ENOMEM.
unfoldable pub main : Bool → Bool → Bool → List ℕ → Option (List ℕ) → (Launch → ℤ) → MainEnd
unfolding with_operand parse_options
main params stack fname opts operand clone =
    if not params
    then return_code (minus 12) none
    else if not stack
    then return_code (minus 12) none
    else if not fname
    then return_code (minus 12) none
    else with_operand clone (parse_options opts 0) operand
