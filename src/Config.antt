-- ===== src/Config.antt =====
-- pkg/config: the settings of a process and when they are valid.
pub mod Settings
pub mod Checks
pub mod Validity
