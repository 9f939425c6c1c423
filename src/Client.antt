-- ===== src/Client.antt =====
-- The client: the multiplexer of one connection, and the client end of a stream.
pub mod Mux
pub mod Stream
pub mod Conn
pub mod Dial
