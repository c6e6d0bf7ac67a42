-- ===== src/Examples.antt =====
-- The example programs of examples/, clients over the sockets of the system.
pub mod Fields
pub mod Receive
pub mod Transport
pub mod Demo
pub mod Autobahn
pub mod Echo
pub mod Write
