-- ===== src/Client.antt =====
-- client.go, over any transport, in the modules below.
pub mod Interface
pub mod New
pub mod Requests
pub mod Serve
pub mod Construction
pub mod Identity
pub mod Serving
pub mod Options
