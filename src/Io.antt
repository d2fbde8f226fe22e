-- ===== src/Io.antt =====
-- Input and output.
pub mod StdioWatcher
pub mod TypeJudger
pub mod Spanbuf
