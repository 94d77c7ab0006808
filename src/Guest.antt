-- ===== src/Guest.antt =====
-- The guest address space (src/guest).
pub mod Mapping
pub mod Space
pub mod Invariant
pub mod View
pub mod Insert
pub mod Create
pub mod Segments
pub mod Slice
pub mod Pages
pub mod Containing
pub mod Protect
pub mod Replace
pub mod Deallocate
pub mod Lookup
pub mod Access
pub mod Batch
pub mod Steps
mod Examples
