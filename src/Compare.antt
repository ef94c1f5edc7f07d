-- ===== src/Compare.antt =====
-- internal/directorycompare: the comparison of a local and a remote directory.
pub mod Entries
pub mod Sameness
