-- ===== src/Proxy.antt =====
-- src/main.rs: the tasks of one proxied connection, and the addresses of the command line.
mod Examples
pub mod Track
pub mod Bytes
pub mod Address
pub mod Open
pub mod Accept
pub mod Startup
pub mod Shared
pub mod Exchange
pub mod Connection
pub mod Destination
