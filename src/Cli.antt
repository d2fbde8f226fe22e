-- ===== src/Cli.antt =====
-- The command line: src/cli and include/essence/cli.
pub mod Matching
pub mod ArgParser
pub mod BaseOption
pub mod RangeOption
