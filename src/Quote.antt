-- ===== src/Quote.antt =====
-- Argv quoting and splitting (src/quote.rs), and the errors of the splitters (src/error.rs).
pub mod Posix
pub mod Windows
pub mod Applescript
pub mod Common
