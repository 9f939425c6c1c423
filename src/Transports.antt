-- ===== src/Transports.antt =====
-- Transports that adapt something else: NewFnReadWriter of internal/util.go with channel.go, and
-- websocket.go. The websocket connection and the protobuf library are not in the repository: what
-- they answer is an input, and `c` serialises an Rpc.
pub mod Fifo
pub mod Frames
use goat.Base.{◌≡◌, Option, none, some, List, [], ◌∷◌, ◌++◌, Bytes, codes}
use goat.Rpc.{Rpc, Err, failure, Result, ok, err, Codec}
use goat.Chan.{Chan, Exec, done, ◌>>=◌, Received, value, nothing_closed, send, receive}

-- Which case of a `select` is taken: the channel, or the end of the context.
pub data Wake : Type 0 where
  on_channel : Wake
  on_context : Err → Wake

-- fnReadWriter: a reader and a writer of some state.
pub record FnReadWriter (S : Type 0) : Type 0 where
  pub r : Wake → S → Exec (S × Result Rpc)
  pub w : Wake → Rpc → S → Exec (S × Option Err)

module _ {S : Type 0} where
  -- NewFnReadWriter
  unfoldable pub new_fn_read_writer :
      (Wake → S → Exec (S × Result Rpc)) → (Wake → Rpc → S → Exec (S × Option Err)) → FnReadWriter S
  new_fn_read_writer r w = record { r = r; w = w }

  -- Read
  unfoldable pub fn_read : FnReadWriter S → Wake → S → Exec (S × Result Rpc)
  fn_read frw wake s = frw.r wake s

  -- Write
  unfoldable pub fn_write : FnReadWriter S → Wake → Rpc → S → Exec (S × Option Err)
  fn_write frw wake rpc s = frw.w wake rpc s

-- The two channels of NewGoatOverChannel.
pub record Queues : Type 0 where
  pub in_q : Chan Rpc
  pub out_q : Chan Rpc

abbrev read_result : Received Rpc → Result Rpc
read_result (value rpc) = ok rpc
read_result nothing_closed = err (failure (codes "read channel closed"))

-- `read` of NewGoatOverChannel
unfoldable pub channel_read : Wake → Queues → Exec (Queues × Result Rpc)
channel_read (on_context e) q = done (q, err e)
channel_read on_channel q = receive q.in_q >>= λ r. done (record q { in_q = r.0 }, read_result r.1)

-- `write` of NewGoatOverChannel
unfoldable pub channel_write : Wake → Rpc → Queues → Exec (Queues × Option Err)
channel_write (on_context e) rpc q = done (q, some e)
channel_write on_channel rpc q = send q.out_q rpc >>= λ c. done (record q { out_q = c }, none)

-- NewGoatOverChannel
unfoldable pub new_goat_over_channel : FnReadWriter Queues
unfolding new_fn_read_writer channel_read channel_write
new_goat_over_channel = new_fn_read_writer channel_read channel_write

-- websocket.MessageType
pub data MessageType : Type 0 where
  message_text message_binary : MessageType

abbrev pub err_non_binary : Err
err_non_binary = failure (codes "invalid websocket message: not binary")

module _ (c : Codec Rpc) where
  -- Read of goatOverWebsocket, given what the connection reads.
  unfoldable pub websocket_read : Result (MessageType × Bytes) → Result Rpc
  websocket_read (err e) = err e
  websocket_read (ok (message_text, d)) = err err_non_binary
  websocket_read (ok (message_binary, d)) = c.unmarshal d

  abbrev websocket_send : Option Err → Result Bytes → List (MessageType × Bytes) × Option Err
  websocket_send w (err e) = ([], some e)
  websocket_send w (ok d) = ((message_binary, d) ∷ [], w)

  -- Write of goatOverWebsocket, where the connection answers `w`: what it writes, and its error.
  unfoldable pub websocket_write : Rpc → Option Err → List (MessageType × Bytes) × Option Err
  websocket_write rpc w = websocket_send w (c.marshal rpc)
