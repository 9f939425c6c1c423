-- ===== src/Client/Mux.antt =====
-- internal/client/multiplexer.go. An operation that holds the mutex is one step; a channel is an
-- address in a store, since the caller and the handler map share it.
pub mod Invariant
pub mod Delivery
pub mod Steps
pub mod Calls
pub mod Loop
use Prim.Native.Nat.{zero}
use goat.Base.{
  ℕ, suc, ◌+◌, ◌%◌, ◌^◌, ◌≡◌, Bool, true, false, Option, none, some, List, [], ◌∷◌, ◌++◌, ℕ_eq, Map,
  lookup, insert, delete, if◌then◌else◌, codes,
}
use goat.Rpc.{RequestHeader, ResponseStatus, Body, Rpc, Err, failure, Result, ok, err}
use goat.Grpc.{Grpc}
use goat.Chan.{
  Chan, Exec, done, blocked, panicked, ◌>>=◌, Received, value, nothing_closed, make, send, close,
  receive, Store, update,
}

pub record Mux : Type 0 where
  pub handlers : Map ℕ ℕ
  pub chans : Store Rpc
  pub next_chan : ℕ
  pub stream_counter : ℕ
  pub r_err : Option Err
  pub cancelled : Bool

-- NewRpcMultiplexer
unfoldable pub new_mux : Mux
unfolding make
new_mux = record {
  handlers = [];
  chans = λ a. make 1;
  next_chan = 0;
  stream_counter = 0;
  r_err = none;
  cancelled = false;
}

-- atomic.AddUint64(&rm.streamCounter, 1)
unfoldable pub next_stream_id : Mux → ℕ × Mux
next_stream_id m =
    let id = (m.stream_counter + 1) % 2 ^ 64 in (id, record m { stream_counter = id })

-- make(chan *goatorepo.Rpc, 1) and registerHandler
unfoldable pub register_handler : ℕ → Mux → Mux
unfolding make
register_handler id m = record m {
  handlers = insert id m.next_chan m.handlers;
  chans = update m.chans m.next_chan (make 1);
  next_chan = suc m.next_chan;
}

unfoldable pub close_at : ℕ → Store Rpc → Exec (Store Rpc)
close_at a chans = do c ← close (chans a); done (update chans a c)

abbrev close_entry : Option ℕ → Store Rpc → Exec (Store Rpc)
close_entry none chans = done chans
close_entry (some a) chans = close_at a chans

-- unregisterHandler
unfoldable pub unregister_handler : ℕ → Mux → Exec Mux
unregister_handler id m = do
  chans ← close_entry (lookup id m.handlers) m.chans
  done (record m { chans = chans; handlers = delete id m.handlers })

-- The loop of closeError over the handler map.
unfoldable pub close_all : Map ℕ ℕ → Store Rpc → Exec (Store Rpc)
close_all [] chans = done chans
close_all ((id, a) ∷ rest) chans = do c ← close_at a chans; close_all rest c

-- closeError: Close passes nil, the end of the read loop its error.
unfoldable pub close_error : Option Err → Mux → Exec Mux
close_error none m = done (record m { cancelled = true })
close_error (some e) m = do
  chans ← close_all m.handlers m.chans
  done (record m { cancelled = true; r_err = some e; chans = chans; handlers = [] })

abbrev deliver_to : Option ℕ → Rpc → Mux → Exec Mux
deliver_to none rpc m = done m
deliver_to (some a) rpc m = do
  c ← send (m.chans a) rpc
  done (record m { chans = update m.chans a c })

-- handleResponse: an Rpc that nobody waits for is only logged.
unfoldable pub handle_response : Rpc → Mux → Exec Mux
handle_response rpc m = deliver_to (lookup rpc.id m.handlers) rpc m

-- A receive by the caller, who holds the channel's address.
unfoldable pub receive_at : ℕ → Mux → Exec (Mux × Received Rpc)
receive_at a m = do r ← receive (m.chans a); done (record m { chans = update m.chans a r.0 }, r.1)

-- readErrorIfDone
unfoldable pub read_error_if_done : Mux → Option Err
read_error_if_done m = m.r_err

-- What CallUnaryMethod makes of an Rpc: a status that is OK gives neither an error nor a body.
unfoldable pub answer : Grpc → Rpc → Result (Option Body)
answer g r = elim r.status [
  | some st ↦ elim (g.status_error st) [ some e ↦ err e | none ↦ ok none ]
  | none ↦ elim r.body [
    | some b ↦ ok (some b)
    | none ↦ err (failure (codes "malformed response: no body or status"))
  ]
]

-- The same with the loop over the stats handlers before it, which reads a field of the header: the
-- program panics if there is a handler and no header.
unfoldable pub observed :
    ℕ → Option RequestHeader → Result (Option Body) → Exec (Result (Option Body))
observed zero h r = done r
observed (suc n) none r = panicked
observed (suc n) (some h) r = done r

-- The end of CallUnaryMethod: what it makes of the receive on its channel.
unfoldable pub unary_result : Grpc → ℕ → Received Rpc → Exec (Result (Option Body))
unfolding answer observed
unary_result g n nothing_closed = done (err (failure (codes "respChan closed")))
unary_result g n (value r) = observed n r.header (answer g r)

-- What ends the wait of CallUnaryMethod: its channel, or its context.
pub data Wake : Type 0 where
  on_channel : Wake
  on_context : Err → Wake

abbrev wait : Grpc → ℕ → ℕ → Wake → Mux → Exec (Mux × Result (Option Body))
wait g n a on_channel m = do r ← receive_at a m; res ← unary_result g n r.1; done (r.0, res)
wait g n a (on_context e) m = done (m, err e)

-- CallUnaryMethod after the write: `others` is what the rest of the program does to the multiplexer
-- before the caller wakes up. The handler is removed in every case.
unfoldable pub finish_call :
    Grpc
    → ℕ
    → ℕ
    → ℕ
    → Option Err
    → (Mux → Exec Mux)
    → Wake
    → Mux
    → Exec (Mux × Result (Option Body))
finish_call g n id a (some e) others wake m = do m' ← unregister_handler id m; done (m', err e)
finish_call g n id a none others wake m = do
  m' ← others m
  r ← wait g n a wake m'
  m'' ← unregister_handler id r.0
  done (m'', r.1)

-- CallUnaryMethod with `n` stats handlers, where the transport answers the write with `w`: the
-- multiplexer after it, and the result.
unfoldable pub call_unary_method :
    Grpc → ℕ → Option Err → (Mux → Exec Mux) → Wake → Mux → Exec (Mux × Result (Option Body))
call_unary_method g n w others wake m = elim m.r_err [
  | some e ↦ done (m, err e)
  | none ↦
      let (id, m') = next_stream_id m in
      finish_call g n id m'.next_chan w others wake (register_handler id m')
]

-- NewStreamReadWriter: the stream's id and its channel's address.
unfoldable pub new_stream_read_writer : Mux → Result (ℕ × ℕ × Mux)
new_stream_read_writer m = elim m.r_err [
  | some e ↦ err e
  | none ↦ let (id, m') = next_stream_id m in ok (id, m'.next_chan, register_handler id m')
]

-- The read function of NewStreamReadWriter.
unfoldable pub stream_read : Mux → Received Rpc → Result Rpc
stream_read m (value r) = ok r
stream_read m nothing_closed = elim m.r_err [
  | some e ↦ err e
  | none ↦ err (failure (codes "respChan closed"))
]

-- The write function of NewStreamReadWriter, given what the transport answered.
unfoldable pub stream_write : Mux → Option Err → Option Err
stream_write m none = none
stream_write m (some e) = elim m.r_err [ some r ↦ some r | none ↦ some e ]
