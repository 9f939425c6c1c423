-- ===== src/Server/RunStream.antt =====
-- runStream of server.go: a stream from its start to its end. A handler is a program: the calls it
-- makes on its stream, each of which may depend on what the ones before returned.
pub mod Trace
use goat.Base.{ℕ, Bool, true, false, Option, none, some, List, [], ◌∷◌, ◌++◌, Bytes, codes, is_some}
use goat.Rpc.{RequestHeader, Rpc, Err, canceled, failure, Result, ok, err, Codec}
use goat.Encoding.Metadata.{Md}
use goat.Encoding.Method.{full_method}
use goat.Grpc.{Grpc}
use goat.Stats.{Event, begin_rpc, in_header, end_rpc, end_error}
use goat.Chan.{value, nothing_closed}
use goat.Server.Streams.{Streams, unregister_stream}
use goat.Server.Stream.{
  ServerStream, Outcome, Received, new_server_stream, set_header, send_header, set_trailer,
  send_msg, recv_msg, send_trailer,
}

-- What ends the `select` of readerFunc: the stream's channel or its context.
pub data ReadWake : Type 0 where
  on_channel : goat.Chan.Received Rpc → ReadWake
  on_context : Err → ReadWake

-- readerFunc
unfoldable pub reader_func : ReadWake → Result Rpc
reader_func (on_channel (value rpc)) = ok rpc
reader_func (on_channel nothing_closed) = err (failure (codes "rCh closed"))
reader_func (on_context e) = err e

-- What ends the `select` of writerFunc: the writer takes the Rpc, or the context ends.
pub data WriteWake : Type 0 where
  taken : WriteWake
  stopped : Err → WriteWake

-- writerFunc
unfoldable pub writer_func : WriteWake → Option Err
writer_func taken = none
writer_func (stopped e) = some e

-- A handler's call of its grpc.ServerStream, or of the transport stream in its context.
pub data Call (M : Type 0) : Type 0 where
  sets_header sends_header sets_trailer : Md → Call M
  sends_msg : M → Call M
  transport_sets_header transport_sends_header transport_sets_trailer : Md → Call M

-- A handler, and what an interceptor makes of it.
pub data StreamProgram (M : Type 0) : Type 0 where
  returns : Option Err → StreamProgram M
  calls : Call M → (Option Err → StreamProgram M) → StreamProgram M
  receives : (Received M → StreamProgram M) → StreamProgram M

pub record StreamServerInfo : Type 0 where
  pub info_method : Bytes
  pub is_client_stream : Bool
  pub is_server_stream : Bool

-- The next of the inputs; once they are used up the context of the stream has ended.
abbrev pub head_read : List ReadWake → ReadWake
head_read [] = on_context canceled
head_read (r ∷ rs) = r

abbrev pub head_write : List WriteWake → WriteWake
head_write [] = stopped canceled
head_write (w ∷ ws) = w

abbrev pub tail : {A : Type 0} → List A → List A
tail [] = []
tail (x ∷ xs) = xs

-- What a program leaves: its stream, what was written and told, its error, and the inputs that it
-- did not use.
pub record Ran : Type 0 where
  pub stream : ServerStream
  pub writes : List Rpc
  pub stats : List Event
  pub app_error : Option Err
  pub wakes : List WriteWake

module _ (g : Grpc) {M : Type 0} (c : Codec M) where
  -- The transport stream passes its calls on to the stream: SetHeader, SendHeader and SetTrailer of
  -- serverTransportStream in internal/server/transport_stream.go.
  unfoldable pub transport_set_header : ServerStream → Md → Outcome
  transport_set_header s md = set_header g s md

  unfoldable pub transport_send_header : ServerStream → Md → Option Err → Outcome
  transport_send_header s md w = send_header g s md w

  unfoldable pub transport_set_trailer : ServerStream → Md → Outcome
  transport_set_trailer s md = record (set_trailer g s md) { error = none }

  unfoldable pub call : ServerStream → Call M → Option Err → Outcome
  unfolding transport_set_header transport_send_header transport_set_trailer
  call s (sets_header md) w = set_header g s md
  call s (sends_header md) w = send_header g s md w
  call s (sets_trailer md) w = set_trailer g s md
  call s (sends_msg m) w = send_msg g c s m w
  call s (transport_sets_header md) w = transport_set_header s md
  call s (transport_sends_header md) w = transport_send_header s md w
  call s (transport_sets_trailer md) w = transport_set_trailer s md

  -- Runs a handler. Each call takes one input, also one that writes nothing.
  unfoldable pub run_program : StreamProgram M → ServerStream → List ReadWake → List WriteWake → Ran
  unfolding call reader_func writer_func
  run_program (returns e) s rs ws = record {
    stream = s;
    writes = [];
    stats = [];
    app_error = e;
    wakes = ws;
  }
  run_program (calls k f) s rs ws =
      let o = call s k (writer_func (head_write ws)) in
      let rest = run_program (f o.error) o.next rs (tail ws) in
      record rest { writes = o.writes ++ rest.writes; stats = o.stats ++ rest.stats }
  run_program (receives f) s rs ws =
      let r = recv_msg g c (reader_func (head_read rs)) in
      let rest = run_program (f r) s (tail rs) ws in record rest { stats = r.stats ++ rest.stats }

  abbrev pub intercepted :
      Option (StreamServerInfo → StreamProgram M → StreamProgram M)
      → StreamServerInfo
      → StreamProgram M
      → StreamProgram M
  intercepted none info p = p
  intercepted (some i) info p = i info p

  -- What runStream leaves: the table of streams, what was written, and what each stats handler was
  -- told.
  pub record StreamRun : Type 0 where
    pub streams : Streams
    pub writes : List Rpc
    pub stats : List Event
    pub app_error : Option Err

  -- runStream of the stream `id`, started by an Rpc with header `h` and metadata `md`, for the
  -- handler `p` of the method `info`.
  unfoldable pub run_stream :
      Option (StreamServerInfo → StreamProgram M → StreamProgram M)
      → StreamServerInfo
      → StreamProgram M
      → ℕ
      → RequestHeader
      → Md
      → List ReadWake
      → List WriteWake
      → Streams
      → StreamRun
  unfolding run_program end_error
  run_stream interceptor info p id h md rs ws t =
      let s = new_server_stream id info.info_method h.destination h.source in
      let r = run_program (intercepted interceptor info p) s rs ws in
      let o = send_trailer g r.stream r.app_error (writer_func (head_write r.wakes)) in
      record {
        streams = unregister_stream id t;
        writes = r.writes ++ o.writes;
        stats =
            begin_rpc false info.is_client_stream info.is_server_stream
              ∷ in_header info.info_method md
              ∷ (r.stats ++ o.stats)
            ++ end_rpc false (end_error r.app_error) ∷ [];
        app_error = r.app_error;
      }
