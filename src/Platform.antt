-- ===== src/Platform.antt =====
-- internal/platform/clipboard_linux.go, apart from the programs that it runs to reach the clipboard.
pub mod Session
pub mod Retry
pub mod Uris
pub mod TypeDetection
pub mod Reading
pub mod Writing
pub mod Monitoring
pub mod Windows
pub mod Daemon
pub mod Darwin
pub mod Rtf
pub mod Polling
pub mod Cache
pub mod Closing
pub mod Formats
