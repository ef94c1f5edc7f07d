-- ===== src/Search.antt =====
-- internal/filesearch: the bounded recursive search by name.
pub mod Options
pub mod Walk
pub mod Bounds
