-- ===== src/Go.antt =====
-- The parts of Go's standard library that the services compute with.
pub mod Fmt
pub mod Bytes
pub mod Text
pub mod Time
pub mod Errors
pub mod RoundRobin
pub mod Map
pub mod Http
