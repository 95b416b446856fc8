-- ===== src/Testapp.antt =====
-- testapp/: the pizza delivery program.
pub mod People
pub mod Match
pub mod Shop
mod Examples
