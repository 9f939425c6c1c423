-- ===== src/Server/Streams.antt =====
-- The table of streams of one connection: processStreamingRpc, resetStream, unregisterStream and
-- cancelAndWaitForStreams of server.go. A stream's channel is only known to the table and to the
-- stream itself, so it stands in the table; it is never closed.
pub mod Table
use Prim.Native.Nat.{zero}
use goat.Base.{
  ℕ, suc, ◌≡◌, Bool, true, false, Option, none, some, List, [], ◌∷◌, ℕ_eq, Bytes_eq, ◌==◌, Map,
  lookup, insert, delete, if◌then◌else◌, is_some, length, Bytes, codes,
}
use goat.Rpc.{RequestHeader, Reset, Rpc, plain_header, Err, Trailer}
use goat.Encoding.Timeout.{ServerContext, context_from_headers}
use goat.Chan.{Chan, Exec, done, blocked, panicked, ◌>>=◌, make, send}
use goat.Server.Unary.{return_route}

pub record StreamHandler : Type 0 where
  pub ch : Chan Rpc
  pub cancelled : Bool

abbrev pub Streams : Type 0
Streams = Map ℕ StreamHandler

-- `rpc.GetReset_() != nil && rpc.GetReset_().Type == "RST_STREAM"`
unfoldable pub is_reset : Option Reset → Bool
is_reset none = false
is_reset (some r) = r.reset_type == codes "RST_STREAM"

-- The Rpc of resetStream.
unfoldable pub reset_rpc : Rpc → RequestHeader → Rpc
unfolding return_route
reset_rpc rpc h = record {
  id = rpc.id;
  header = some (record (plain_header h.method h.destination h.source) {
    proxy_next = return_route h.proxy_record;
  });
  status = none;
  body = none;
  trailer = some (record { metadata = [] });
  reset = some (record { reset_type = codes "RST_STREAM" });
}

-- Which case of the `select` is taken where a message goes to its stream: the send, or the end of
-- the client's or of the connection's context.
pub data Choice : Type 0 where
  queues : Choice
  gives_up : Err → Choice

pub record Outcome : Type 0 where
  pub streams : Streams
  pub writes : List Rpc
  pub started : Option ServerContext
  pub error : Option Err

abbrev pub quiet : Streams → Outcome
quiet t = record { streams = t; writes = []; started = none; error = none }

-- resetStream, where the transport answers the write with `w`.
unfoldable pub reset_stream : Rpc → RequestHeader → Option Err → Streams → Outcome
reset_stream rpc h w t = record {
  streams = t;
  writes = reset_rpc rpc h ∷ [];
  started = none;
  error = w;
}

-- An Rpc of a stream that is known.
unfoldable pub to_stream : Rpc → StreamHandler → Choice → Streams → Exec Outcome
to_stream rpc s choice t =
    if is_reset rpc.reset
    then done (quiet (insert rpc.id (record s { cancelled = true }) t))
    else elim choice [
      | gives_up e ↦ done (record (quiet t) { error = some e })
      | queues ↦ (send s.ch rpc >>= λ c. done (quiet (insert rpc.id (record s { ch = c }) t)))
    ]

abbrev start_with : Rpc → RequestHeader → Option Err → Streams → Option ServerContext → Outcome
start_with rpc h w t none = reset_stream rpc h w t
start_with rpc h w t (some ctx) =
    record (quiet (insert rpc.id (record { ch = make 1; cancelled = false }) t)) {
      started = some ctx;
    }

-- An Rpc of a stream that is not known.
unfoldable pub to_new_stream : Rpc → RequestHeader → Option Err → Streams → Outcome
unfolding reset_stream make
to_new_stream rpc h w t =
    if is_reset rpc.reset
    then quiet t
    else if is_some rpc.body
    then reset_stream rpc h w t
    else if is_some rpc.trailer
    then quiet t
    else start_with rpc h w t (context_from_headers h.headers)

abbrev by_entry :
    Rpc → RequestHeader → Option Err → Choice → Streams → Option StreamHandler → Exec Outcome
by_entry rpc h w choice t none = done (to_new_stream rpc h w t)
by_entry rpc h w choice t (some s) = to_stream rpc s choice t

-- processStreamingRpc of an Rpc with header `h`. It holds the mutex, also while it is blocked.
unfoldable pub process_streaming_rpc :
    Rpc → RequestHeader → Option Err → Choice → Streams → Exec Outcome
process_streaming_rpc rpc h w choice t = by_entry rpc h w choice t (lookup rpc.id t)

-- unregisterStream: the entry goes, once its handler is cancelled and whoever waits for it is told.
unfoldable pub unregister_stream : ℕ → Streams → Streams
unregister_stream id t = delete id t

abbrev pub unregister_streams : List ℕ → Streams → Streams
unregister_streams [] t = t
unregister_streams (id ∷ ids) t = unregister_streams ids (unregister_stream id t)

-- cancelAndWaitForStreams: cancel some stream, wait until it has unregistered itself, and again.
-- `others n` are the streams that end by themselves during the n-th wait. The result lists the
-- streams that were cancelled; `none` means that the fuel ran out.
unfoldable pub cancel_and_wait_for_streams : ℕ → (ℕ → List ℕ) → Streams → Option (List ℕ)
unfolding unregister_stream
cancel_and_wait_for_streams fuel others [] = some []
cancel_and_wait_for_streams zero others ((id, s) ∷ t) = none
cancel_and_wait_for_streams (suc n) others ((id, s) ∷ t) =
    elim (cancel_and_wait_for_streams n others
      (unregister_streams (others n) (unregister_stream id ((id, s) ∷ t)))) [
        | none ↦ none
        | some ids ↦ some (id ∷ ids)
      ]
