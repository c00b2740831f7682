-- ===== src/StreamableHttp.antt =====
-- rust/src/gateways/stdio_to_streamable_http.rs: the gateway from a stdio child to Streamable HTTP.
pub mod Session
pub mod Message
pub mod Manager
pub mod Handlers
pub mod Updates
pub mod Stateless
