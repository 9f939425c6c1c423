-- ===== src/Client/Dial.antt =====
-- Options and interceptors of a client's connection: dialoption.go, with NewClientConn, Close, Invoke,
-- NewStream and the checks of call options in client.go. Interceptors and stats handlers are the
-- caller's: `T` stands for the stream that NewStream yields.
pub mod Options
use goat.Stats.{ConnEvent, tag_conn, conn_begin, conn_end}
use goat.Base.{Bool, true, false, Option, none, some, List, [], ◌∷◌, ◌++◌, Bytes, if◌then◌else◌}
use goat.Rpc.{Err, Result}
use goat.Grpc.{Grpc}
use goat.Chan.{Exec, panicked}
use goat.Client.Mux.{Mux}

-- grpc.CallOption: StaticMethodCallOption, or any other.
pub data CallOption : Type 0 where
  static_method other_option : CallOption

-- The test at the head of invoke and of newStream: other options make the program panic.
unfoldable pub supported : List CallOption → Bool
supported [] = true
supported (static_method ∷ []) = true
supported (other_option ∷ []) = false
supported (o ∷ p ∷ os) = false

module _ (M T : Type 0) where
  -- grpc.UnaryInvoker and grpc.Streamer: the method, the arguments, and the call options.
  abbrev pub Invoker : Type 0
  Invoker = Bytes → M → List CallOption → Mux → Exec (Mux × Result M)

  abbrev pub Streamer : Type 0
  Streamer = Bytes → List CallOption → Mux → Exec (Mux × Result T)

  abbrev pub UnaryInterceptor : Type 0
  UnaryInterceptor = Invoker → Invoker

  abbrev pub StreamInterceptor : Type 0
  StreamInterceptor = Streamer → Streamer

  -- `handlers` are the stats handlers, of which `H` tells what they are.
  pub record Dialled (H : Type 0) : Type 0 where
    pub source_address : Bytes
    pub dest_address : Bytes
    pub unary_interceptor : Option UnaryInterceptor
    pub stream_interceptor : Option StreamInterceptor
    pub stats_handlers : List H

  pub data DialOption (H : Type 0) : Type 0 where
    with_unary_interceptor : UnaryInterceptor → DialOption H
    with_stream_interceptor : StreamInterceptor → DialOption H
    with_stats_handler : H → DialOption H

module _ {H : Type 0} where
  abbrev pub begin_each : List H → List (H × ConnEvent)
  begin_each [] = []
  begin_each (h ∷ hs) = (h, tag_conn) ∷ (h, conn_begin true) ∷ begin_each hs

  abbrev pub end_each : List H → List (H × ConnEvent)
  end_each [] = []
  end_each (h ∷ hs) = (h, conn_end true) ∷ end_each hs

module _ {M T H : Type 0} where
  -- apply
  unfoldable pub apply_dial : DialOption M T H → Dialled M T H → Dialled M T H
  apply_dial (with_unary_interceptor i) c = record c { unary_interceptor = some i }
  apply_dial (with_stream_interceptor i) c = record c { stream_interceptor = some i }
  apply_dial (with_stats_handler h) c = record c { stats_handlers = c.stats_handlers ++ h ∷ [] }

  unfoldable pub apply_dials : List (DialOption M T H) → Dialled M T H → Dialled M T H
  unfolding apply_dial
  apply_dials [] c = c
  apply_dials (o ∷ os) c = apply_dials os (apply_dial o c)

  -- NewClientConn: the connection, and what the stats handlers are told.
  unfoldable pub new_client_conn :
      Bytes → Bytes → List (DialOption M T H) → Dialled M T H × List (H × ConnEvent)
  unfolding apply_dials
  new_client_conn source dest opts =
      let c = apply_dials opts (record {
        source_address = source;
        dest_address = dest;
        unary_interceptor = none;
        stream_interceptor = none;
        stats_handlers = [];
      }) in
      (c, begin_each c.stats_handlers)

  -- Close
  unfoldable pub close_conn : Dialled M T H → List (H × ConnEvent)
  close_conn c = end_each c.stats_handlers

module _ {M T : Type 0} (call : Bytes → M → Mux → Exec (Mux × Result M))
    (open_ : Bytes → Mux → Exec (Mux × Result T)) where
  -- invoke, of which `call` is what follows the check of the options; asInvoker is the same.
  unfoldable pub as_invoker : Invoker M T
  unfolding supported
  as_invoker method args opts m = if supported opts then call method args m else panicked

  abbrev pub invoke_by : Option (UnaryInterceptor M T) → Invoker M T
  invoke_by none = as_invoker
  invoke_by (some i) = i as_invoker

  -- Invoke
  unfoldable pub invoke_conn : {H : Type 0} → Dialled M T H → Invoker M T
  invoke_conn c method args opts m = invoke_by c.unary_interceptor method args opts m

  -- newStream, of which `open_` is what follows the check; asStreamer is the same.
  unfoldable pub as_streamer : Streamer M T
  unfolding supported
  as_streamer method opts m = if supported opts then open_ method m else panicked

  abbrev pub stream_by : Option (StreamInterceptor M T) → Streamer M T
  stream_by none = as_streamer
  stream_by (some i) = i as_streamer

  -- NewStream
  unfoldable pub stream_conn : {H : Type 0} → Dialled M T H → Streamer M T
  stream_conn c method opts m = stream_by c.stream_interceptor method opts m
