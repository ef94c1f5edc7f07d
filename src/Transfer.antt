-- ===== src/Transfer.antt =====
-- The transfer queue: internal/transfer.
pub mod Model
pub mod Requests
pub mod Scheduler
pub mod Queue
pub mod Events
pub mod Frame
pub mod Jobs
pub mod System
pub mod Workers
pub mod Capacity
pub mod Binding
pub mod Bandwidth
pub mod Attempts
pub mod Reorder
pub mod Slots
pub mod Starts
pub mod Selections
