-- ===== src/Transports/Frames.antt =====
-- websocket.go: what Read makes of the frames of Write.
use goat.Base.{Option, List, [], ◌∷◌, ◌++◌, Bytes}
use goat.Rpc.{Rpc, Err, Result, ok, err, Codec}
use goat.Transports.{MessageType, websocket_read, websocket_write}

module _ (c : Codec Rpc) where
  -- The frames of some writes, and the Rpcs that could be serialised.
  abbrev pub frames : List (Rpc × Option Err) → List (MessageType × Bytes)
  frames [] = []
  frames ((rpc, w) ∷ ws) = (websocket_write c rpc w).0 ++ frames ws

  abbrev serialisable : Rpc → Result Bytes → List (Result Rpc)
  serialisable rpc (ok d) = ok rpc ∷ []
  serialisable rpc (err e) = []

  abbrev pub sendable : List (Rpc × Option Err) → List (Result Rpc)
  sendable [] = []
  sendable ((rpc, w) ∷ ws) = serialisable rpc (c.marshal rpc) ++ sendable ws

  abbrev pub read_frames : List (MessageType × Bytes) → List (Result Rpc)
  read_frames [] = []
  read_frames (f ∷ fs) = websocket_read c (ok f) ∷ read_frames fs
