-- ===== src/Filesys.antt =====
-- filesys/: the file server. The child modules of each part hold its theorems.
pub mod Types
pub mod Disk
pub mod Monad
pub mod Locks
pub mod Path
pub mod Lookup
pub mod ReadWrite
pub mod Create
pub mod Delete
pub mod Request
pub mod Search
pub mod Message
pub mod Connection
pub mod Server
pub mod RamDisk
mod Examples
