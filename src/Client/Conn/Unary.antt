-- ===== src/Client/Conn/Unary.antt =====
-- A unary call from the client's connection (client.go) by way of the multiplexer to the server
-- (processUnaryRpc of server.go) and back.
use goat.Base.{◌≡◌, none, some, Bytes}
use goat.Rpc.{Rpc, Err, Codec}
use goat.Grpc.{Grpc}
use goat.Client.Mux.{Mux}

module _ (g : Grpc) {M : Type 0} (c : Codec M) (text : Err → Bytes) where
  -- The answer of a handler that gives the response `y`, serialised as `b`.
  abbrev Answers : Rpc → Bytes → Rpc → Type 0
  Answers rpc b resp =
      (resp.id ≡ rpc.id) × (resp.status ≡ none) × (resp.body ≡ some (record { body_data = some b }))
