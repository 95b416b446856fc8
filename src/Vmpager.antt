-- ===== src/Vmpager.antt =====
-- vmpager/: the pager. The child modules of each part hold its theorems.
pub mod Api
pub mod State
pub mod Address
pub mod Faults
pub mod Evict
pub mod Memory
pub mod Cache
pub mod Process
pub mod Map
mod Examples
