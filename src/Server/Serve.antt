-- ===== src/Server/Serve.antt =====
-- The read loop of `serve` in server.go, with what the handlers of its streams do in between: an
-- interleaving is a list of events. The handlers' fetches are those of readerFunc, their ends
-- unregisterStream.
pub mod Queues
pub mod Isolation
pub mod Handed
pub mod Answered
pub mod Conns
pub mod Workers
use goat.Base.{ℕ, ◌≡◌, Option, none, some, List, [], ◌∷◌, ◌++◌, ℕ_eq, lookup, insert, length, codes}
use goat.Rpc.{RequestHeader, Rpc, Err, wrapped, Result, ok, err}
use goat.Encoding.Timeout.{ServerContext}
use goat.Chan.{Exec, done, blocked, ◌>>=◌, receive, Received}
use goat.Server.Registry.{
  MethodDesc, StreamDesc, ServiceInfo, Server, Action, no_header, bad_method, wrong_destination,
  unknown_service, unhandled_method, unary, streaming, dispatch,
}
use goat.Server.Streams.{
  StreamHandler, Streams, Choice, queues, gives_up, process_streaming_rpc, unregister_stream,
  cancel_and_wait_for_streams,
}

-- A turn of the loop: what the transport reads, its answer to the write of a reset, and which case
-- a `select` takes.
pub record Turn : Type 0 where
  pub read : Result Rpc
  pub write : Option Err
  pub choice : Choice

pub data Event : Type 0 where
  turns : Turn → Event
  fetches ends : ℕ → Event

module _ (H S : Type 0) where
  -- unaryRpcArgs
  pub record UnaryRpcArgs : Type 0 where
    pub info : ServiceInfo H S
    pub md : MethodDesc H S
    pub rpc : Rpc

  -- A call of runStream.
  pub record Started : Type 0 where
    pub stream_info : ServiceInfo H S
    pub sd : StreamDesc H S
    pub stream_id : ℕ
    pub context : ServerContext

  -- The table of streams, the unary calls that were handed to the workers, the streams that were
  -- started, and the resets that were written.
  pub record Loop : Type 0 where
    pub streams : Streams
    pub handed : List UnaryRpcArgs
    pub started : List Started
    pub resets : List Rpc

  -- newHandler
  unfoldable pub new_handler : Loop
  new_handler = record { streams = []; handed = []; started = []; resets = [] }

  pub data Step : Type 0 where
    goes_on : Loop → Step
    returns : Loop → Err → Step

  abbrev started_by : ServiceInfo H S → StreamDesc H S → ℕ → Option ServerContext → List Started
  started_by si sd id none = []
  started_by si sd id (some ctx) =
      record { stream_info = si; sd = sd; stream_id = id; context = ctx } ∷ []

  abbrev pub step_of : Loop → Option Err → Step
  step_of l none = goes_on l
  step_of l (some e) = returns l e

  abbrev pub after_streaming :
      ServiceInfo H S → StreamDesc H S → Rpc → Loop → goat.Server.Streams.Outcome → Step
  after_streaming si sd rpc l o =
      step_of
        (record l {
          streams = o.streams;
          started = l.started ++ started_by si sd rpc.id o.started;
          resets = l.resets ++ o.writes;
        })
        o.error

  abbrev pub hand_to_worker : ServiceInfo H S → MethodDesc H S → Rpc → Choice → Loop → Step
  hand_to_worker si md rpc queues l =
      goes_on (record l { handed = l.handed ++ record { info = si; md = md; rpc = rpc } ∷ [] })
  hand_to_worker si md rpc (gives_up e) l = returns l e

  -- What follows the dispatch of an Rpc with header `h`.
  abbrev pub act : Turn → Rpc → RequestHeader → Loop → Action H S → Exec Step
  act turn rpc h l no_header = done (goes_on l)
  act turn rpc h l bad_method = done (goes_on l)
  act turn rpc h l wrong_destination = done (goes_on l)
  act turn rpc h l unknown_service = done (goes_on l)
  act turn rpc h l unhandled_method = done (goes_on l)
  act turn rpc h l (unary si md) = done (hand_to_worker si md rpc turn.choice l)
  act turn rpc h l (streaming si sd) =
      process_streaming_rpc rpc h turn.write turn.choice l.streams >>= λ o.
      done (after_streaming si sd rpc l o)

  abbrev pub on_rpc : Server H S → Turn → Loop → Rpc → Option RequestHeader → Exec Step
  on_rpc s turn l rpc none = done (goes_on l)
  on_rpc s turn l rpc (some h) = act turn rpc h l (dispatch H S s rpc)

  abbrev pub on_read : Server H S → Turn → Loop → Result Rpc → Exec Step
  on_read s turn l (err e) = done (returns l (wrapped (codes "read error") e))
  on_read s turn l (ok rpc) = on_rpc s turn l rpc rpc.header

  -- The body of the loop.
  unfoldable pub serve_turn : Server H S → Turn → Loop → Exec Step
  serve_turn s turn l = on_read s turn l turn.read

  abbrev pub fetched_from : ℕ → Loop → Option StreamHandler → Exec Loop
  fetched_from id l none = blocked
  fetched_from id l (some s) = receive s.ch >>= λ r.
      done (record l { streams = insert id (record s { ch = r.0 }) l.streams })

  -- readerFunc takes the next Rpc from the stream's channel.
  unfoldable pub fetch : ℕ → Loop → Exec Loop
  fetch id l = fetched_from id l (lookup id l.streams)

  unfoldable pub step : Server H S → Event → Loop → Exec Step
  unfolding serve_turn fetch
  step s (turns t) l = serve_turn s t l
  step s (fetches id) l = fetch id l >>= λ l'. done (goes_on l')
  step s (ends id) l = done (goes_on (record l { streams = unregister_stream id l.streams }))

  abbrev pub unless_returned : (Loop → Exec Step) → Step → Exec Step
  unless_returned f (goes_on l) = f l
  unless_returned f (returns l e) = done (returns l e)

  -- The loop, until it returns or the events are used up.
  unfoldable pub serve : Server H S → List Event → Loop → Exec Step
  unfolding step
  serve s [] l = done (goes_on l)
  serve s (e ∷ es) l = step s e l >>= unless_returned (serve s es)

  abbrev waited : Loop → (ℕ → List ℕ) → Err → Exec (Option (List ℕ) × Err)
  waited l others e = done (cancel_and_wait_for_streams (length l.streams) others l.streams, e)

  abbrev pub then_wait : (ℕ → List ℕ) → Step → Exec (Option (List ℕ) × Err)
  then_wait others (goes_on l) = blocked
  then_wait others (returns l e) = waited l others e

  -- Serve: the loop, and then the wait for the streams that are left. It yields the streams that were
  -- cancelled, and the error.
  unfoldable pub serve_connection :
      Server H S → List Event → (ℕ → List ℕ) → Exec (Option (List ℕ) × Err)
  unfolding serve new_handler
  serve_connection s es others = serve s es new_handler >>= then_wait others
