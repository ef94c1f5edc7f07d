-- ===== src/Update.antt =====
-- internal/updatecheck: whether a newer version of the program is offered.
pub mod Versions
pub mod Manifests
pub mod Offers
pub mod Printing
