-- ===== src/Coreutils.antt =====
-- coreutils: the text utilities, on texts in memory.
pub mod Lines
pub mod Text
pub mod Translate
pub mod Command
pub mod Search
