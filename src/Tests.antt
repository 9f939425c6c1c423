-- ===== src/Tests.antt =====
-- Tests of the definitions on small inputs, and the theorems at concrete inputs. The code that each
-- child is about is named in it.
mod Encoding
mod ServerStream
mod Mux
mod Server
mod ClientStream
mod Proxy
mod RunStream
mod Serve
mod Answered
mod Transports
mod Options
mod Stats
mod Http
mod Demux
mod Conn
