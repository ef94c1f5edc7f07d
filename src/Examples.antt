-- ===== src/Examples.antt =====
-- Tests and examples, on concrete states of the components: the scenes of internal/transfer's,
-- internal/remote's, internal/updatecheck's and internal/config's own tests, in small.
mod Histories
mod Values
mod Searches
mod Sessions
mod Batches
mod Deletes
mod Lists
