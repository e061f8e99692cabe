-- ===== src/Tests.antt =====
-- The theorems at concrete inputs.
pub mod Checksum
pub mod Lsa
pub mod Lsdb
pub mod Neighbor
pub mod Interface
pub mod Router
pub mod Handlers
pub mod Choices
pub mod Routing
pub mod Loops
pub mod System
pub mod Kernel
