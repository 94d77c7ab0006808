-- ===== src/Darwin.antt =====
-- The Darwin boundary (src/darwin): the guest's Mach port names.
pub mod PortSpace
pub mod PortTraps
mod Examples
