-- ===== src/Client/Conn.antt =====
-- client.go: a connection's unary calls and the opening of its streams, over the multiplexer. That
-- there is an interceptor, and what it does, is up to the caller; what stats handlers are told is
-- in Events; here only their number counts, which the multiplexer's call depends on.
pub mod Unary
pub mod Failures
pub mod Events
pub mod Served
use goat.Base.{ℕ, Option, none, some, List, [], ◌∷◌, Bytes, codes}
use goat.Rpc.{RequestHeader, plain_header, Body, Rpc, get_data, Err, Result, ok, err, Codec}
use goat.Encoding.Metadata.{Md}
use goat.Encoding.Timeout.{ClientContext, headers_from_context}
use goat.Grpc.{Grpc}
use goat.Chan.{Exec, done, panicked, ◌>>=◌}
use goat.Client.Mux.{Mux, Wake, call_unary_method, new_stream_read_writer, stream_write}
use goat.Client.Stream.{ClientStream, new_stream}

pub record ClientConn : Type 0 where
  pub source_address : Bytes
  pub dest_address : Bytes

-- The header of a request.
unfoldable pub request_header : (List Md → Md) → ClientConn → Bytes → ClientContext → RequestHeader
request_header join conn method ctx =
    record (plain_header method conn.dest_address conn.source_address) {
      source = conn.source_address;
      destination = conn.dest_address;
      headers = headers_from_context join ctx;
    }

-- The Rpc of a call or, without a body, of the opening of a stream.
unfoldable pub request_rpc : ℕ → RequestHeader → Option Bytes → Rpc
request_rpc id h data_ = record {
  id = id;
  header = some h;
  status = none;
  body = elim data_ [ none ↦ none | some d ↦ some (record { body_data = some d }) ];
  trailer = none;
  reset = none;
}

abbrev data_of : Option Bytes → Bytes
data_of none = []
data_of (some d) = d

module _ (g : Grpc) {M : Type 0} (c : Codec M) where
  -- What invoke makes of the result of CallUnaryMethod: it reads a field of the body, which is nil
  -- after a response with the status OK.
  unfoldable pub reply_of : Mux × Result (Option Body) → Exec (Mux × Result M)
  reply_of (m, err e) = done (m, err e)
  reply_of (m, ok none) = panicked
  reply_of (m, ok (some b)) = done (m, c.unmarshal (data_of b.body_data))

  abbrev invoke_with :
      ℕ → Option Err → (Mux → Exec Mux) → Wake → Mux → Result Bytes → Exec (Mux × Result M)
  invoke_with n w others wake m (err e) = done (m, err e)
  invoke_with n w others wake m (ok b) = call_unary_method g n w others wake m >>= reply_of

  -- invoke with `n` stats handlers; `w`, `others` and `wake` are those of CallUnaryMethod.
  unfoldable pub invoke : ℕ → M → Option Err → (Mux → Exec Mux) → Wake → Mux → Exec (Mux × Result M)
  unfolding reply_of
  invoke n args w others wake m = invoke_with n w others wake m (c.marshal args)

-- What newStream leaves: the multiplexer, what was written, and the stream with the address of its
-- channel.
pub record Opened : Type 0 where
  pub mux : Mux
  pub writes : List Rpc
  pub stream : Result (ℕ × ClientStream)

abbrev stream_or_error : ClientConn → Bytes → ℕ → ℕ → Option Err → Result (ℕ × ClientStream)
stream_or_error conn method id a (some e) = err e
stream_or_error conn method id a none =
    ok (a, new_stream id method conn.source_address conn.dest_address)

abbrev open_with :
    (List Md → Md)
    → ClientConn
    → Bytes
    → ClientContext
    → Option Err
    → Mux
    → Result (ℕ × ℕ × Mux)
    → Opened
open_with join conn method ctx w m (err e) = record { mux = m; writes = []; stream = err e }
open_with join conn method ctx w m (ok (id, a, m')) = record {
  mux = m';
  writes = request_rpc id (request_header join conn method ctx) none ∷ [];
  stream = stream_or_error conn method id a (stream_write m' w);
}

-- newStream, where the transport answers the write that opens the stream with `w`. The handler stays
-- where the write fails.
unfoldable pub open_stream :
    (List Md → Md) → ClientConn → Bytes → ClientContext → Option Err → Mux → Opened
open_stream join conn method ctx w m = open_with join conn method ctx w m (new_stream_read_writer m)
