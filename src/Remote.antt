-- ===== src/Remote.antt =====
-- The remote side: internal/remote. Its errors, what may be retried, and how a finished upload
-- takes the place of the old file.
pub mod Errors
pub mod Names
pub mod Commit
pub mod Output
pub mod Endpoints
pub mod Secrets
pub mod Session
pub mod Delete
