-- ===== src/Tests.antt =====
-- The theorems at concrete inputs, and runs of the definitions.
mod Samples
mod Storing
mod Clipping
mod Syncing
mod Polling
mod Linux
mod Nodes
mod Running
mod Windows
mod Commands
mod Daemon
mod Others
