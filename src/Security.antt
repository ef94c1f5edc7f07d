-- ===== src/Security.antt =====
-- internal/security: the checks on what reaches commands and the file system.
pub mod Hosts
pub mod LocalNames
