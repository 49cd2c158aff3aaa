-- ===== src/Cli.antt =====
-- internal/cli: the commands.
pub mod History
pub mod Service
pub mod Pair
pub mod Root
pub mod Run
pub mod Flush
