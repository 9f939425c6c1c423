-- ===== src/Client/Stream/Session.antt =====
-- A whole stream: runStream of server.go, whatever its handler does, with the client's read loop of
-- internal/client/stream.go.
use goat.Base.{ℕ, Option, List, map}
use goat.Rpc.{RequestHeader, Rpc, Codec}
use goat.Grpc.{Grpc}
use goat.Server.Streams.{Streams}
use goat.Server.Stream.Run.{Op}
use goat.Server.RunStream.{ReadWake, WriteWake, StreamProgram, StreamServerInfo, intercepted}
use goat.Server.RunStream.Trace.{trace, stream_of}

module _ (g : Grpc) {M : Type 0} (c : Codec M) where
  -- The calls that a handler makes while runStream runs it.
  abbrev pub made :
      Option (StreamServerInfo → StreamProgram M → StreamProgram M)
      → StreamServerInfo
      → StreamProgram M
      → ℕ
      → RequestHeader
      → List ReadWake
      → List WriteWake
      → List (Op M)
  made interceptor info p id h rs ws =
      map (λ o. o.0)
        (trace g c (intercepted g c interceptor info p) (stream_of g c info id h) rs ws)
