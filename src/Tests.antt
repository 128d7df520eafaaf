-- ===== src/Tests.antt =====
-- The theorems at concrete inputs, over concrete libraries.
mod Libraries
mod Log
mod LogRuns
mod Wires
mod Nodes
mod NodeRuns
mod NetworkRuns
mod IpcRuns
mod EbpfRuns
mod DaemonRuns
mod CliRuns
mod ConnectionRuns
mod TaskRuns
mod StartRuns
mod FreezeRuns
