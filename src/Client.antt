-- ===== src/Client.antt =====
-- client/: the management client, a module to each file of the package.
pub mod Requests
pub mod Methods
pub mod Discovery
pub mod Remote
pub mod Errors
