-- ===== src/Config.antt =====
-- The settings of the program: internal/config/settings.go, with the language codes that they name.
pub mod Languages
pub mod Settings
pub mod Store
pub mod Validity
