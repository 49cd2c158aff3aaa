-- ===== src/Clipboard.antt =====
-- internal/clipboard
pub mod History
pub mod Detection
pub mod Processing
pub mod Monitor
