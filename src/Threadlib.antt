-- ===== src/Threadlib.antt =====
-- threadlib/: the user-level thread library. The child modules of each part hold its theorems.
pub mod System
pub mod Mutex
pub mod Cv
pub mod Thread
pub mod Places
pub mod Schedule
pub mod Examples
