-- ===== src/Tests/DispatchRuns.antt =====
-- `xclone2` at concrete requests.
use asynchronous_file_system.Common.{
  ℕ, ◌≡◌, refl, ℤ, pos, true, false, some, none, Option, List, codes, ap, ◌∙◌, bytes_ne, arith,
}
use asynchronous_file_system.Kernel.Volume.{or_empty}
use asynchronous_file_system.Param.{Param}
use asynchronous_file_system.Kernel.Monad.{done}
use asynchronous_file_system.Kernel.Triple.{Ends, Any, Keeps}
use asynchronous_file_system.Kernel.Contained.{Untouched}
use asynchronous_file_system.Kernel.Memory.{Machine, memory_kernel, memory_volume, memory_contained}
use asynchronous_file_system.CommandLine.Parse.{mask}
use asynchronous_file_system.Dispatch.{xclone2}
use asynchronous_file_system.Dispatch.Flags.{xclone2_without_move, xclone2_drops_errors}
use asynchronous_file_system.Dispatch.Ends.{xclone2_ends}
use asynchronous_file_system.Kernel.Finishes.{IsFinished}
use asynchronous_file_system.Dispatch.Frame.{xclone2_frame}
use asynchronous_file_system.Unlink.{processunlink}
use asynchronous_file_system.Unlink.Frame.{Keeps-processunlink}
use asynchronous_file_system.Tests.Machines.{
  cipher, cipher_quiet, compressor, compressor_quiet, path, machine, args,
}

abbrev name_of : Option Param → Option (List ℕ)
name_of none = none
name_of (some p) = p.fname

-- The request -ce.
abbrev asked : Machine
asked = record machine { flag = 4086 }

asked_flag : memory_kernel.xclone_flag asked ≡ mask false true true
unfolding mask
asked_flag = refl

xclone2_without_move_example :
    xclone2 memory_kernel cipher compressor 1 (some args) 7 asked ≡ done (pos 0) asked
xclone2_without_move_example =
    xclone2_without_move memory_kernel cipher compressor 1 args path 7 asked true true refl
      asked_flag

xclone2_drops_errors_example : ◌≡◌ {A = ℤ} (pos 0) (pos 0)
xclone2_drops_errors_example =
    xclone2_drops_errors memory_kernel cipher compressor 1 args path 7 asked refl (omega arith)
      xclone2_without_move_example

xclone2_frame_example :
    Ends
      (λ s'. s'.disk (codes "/etc/hosts") ≡ none)
      Any
      (xclone2 memory_kernel cipher compressor 1 (some args) 7 machine)
xclone2_frame_example =
    xclone2_frame memory_kernel memory_volume memory_contained cipher cipher_quiet compressor
      compressor_quiet 1 (some args) 7 (codes "/etc/hosts") machine
      (λ param e f. bytes_ne path (codes "/etc/hosts") refl (ap or_empty (ap name_of e ∙ f)))
      (bytes_ne _ _ refl) (bytes_ne _ _ refl)

Keeps-processunlink_example :
    Keeps
      (Untouched memory_kernel memory_volume (codes "/etc/hosts") none)
      Any
      (processunlink memory_kernel 1 args)
Keeps-processunlink_example =
    Keeps-processunlink memory_kernel memory_volume memory_contained (codes "/etc/hosts") none 1
      args (λ e. bytes_ne path (codes "/etc/hosts") refl (ap or_empty e)) (bytes_ne _ _ refl)

-- The request -e, as the flag 4085.
abbrev to_encrypt : Machine
to_encrypt = record machine { flag = 4085 }

xclone2_ends_example :
    IsFinished (xclone2 memory_kernel cipher compressor 526_346 (some args) 7 to_encrypt)
xclone2_ends_example =
    xclone2_ends memory_kernel cipher compressor 526_346 (some args) 7 to_encrypt (omega arith)
      (omega arith)
