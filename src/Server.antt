-- ===== src/Server.antt =====
-- The server's side of server.go and internal/server: registration and dispatch, unary calls, the
-- table of streams, and the server's end of one stream.
pub mod Transport
pub mod Registry
pub mod Unary
pub mod Streams
pub mod Stream
pub mod RunStream
pub mod Serve
pub mod Options
