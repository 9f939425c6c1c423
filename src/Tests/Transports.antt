-- ===== src/Tests/Transports.antt =====
-- The transports of channel.go and websocket.go.
use goat.Base.{ℕ, none, some, List, [], ◌∷◌, Bytes, Option}
use goat.Rpc.{
  RequestHeader, ResponseStatus, Body, Trailer, Reset, eof, Rpc, canceled, Err, Result, ok, err,
  Codec,
}
use goat.Transports.{on_channel, on_context}
use goat.Transports.Fifo.{Use, writes, reads}

abbrev rpc : Rpc
rpc = record { id = 7; header = none; status = none; body = none; trailer = none; reset = none }

abbrev uses : List Use
uses = writes on_channel rpc ∷ writes (on_context canceled) rpc ∷ reads on_channel ∷ []

-- A serialisation of the Rpcs that have nothing but an id.
abbrev id_only :
    ℕ
    → Option RequestHeader
    → Option ResponseStatus
    → Option Body
    → Option Trailer
    → Option Reset
    → Result Bytes
id_only id none none none none none = ok (id ∷ [])
id_only id (some h) st b t r = err eof
id_only id none (some st) b t r = err eof
id_only id none none (some b) t r = err eof
id_only id none none none (some t) r = err eof
id_only id none none none none (some r) = err eof

abbrev from_id : Bytes → Result Rpc
from_id [] = err eof
from_id (n ∷ ns) = ok (record rpc { id = n })

abbrev by_id : Codec Rpc
by_id = record {
  marshal = λ r. id_only r.id r.header r.status r.body r.trailer r.reset;
  unmarshal = from_id;
}

-- The second Rpc cannot be serialised.
abbrev sends : List (Rpc × Option Err)
sends = (rpc, none) ∷ (record rpc { body = some (record { body_data = none }) }, none) ∷ []
