-- ===== src/Transmitter.antt =====
-- transmitter/: the Transmitter side. The push driver is here; a module to each file of the package.
pub mod Push
pub mod Problem
pub mod Interface
pub mod Http
pub mod Handlers
pub mod Mux
pub mod WellKnown
