-- ===== src/Tests.antt =====
-- Runs on concrete files, and the theorems at concrete inputs.
mod Machines
mod UnlinkRuns
mod CommandRuns
mod DispatchRuns
mod ProcRuns
mod AsyncRuns
mod CompressRuns
mod EncryptRuns
mod ModuleRuns
mod OlderRuns
mod FragmentRuns
mod PackRuns
mod EncCompRuns
mod EntryRuns
mod ReadBackRuns
