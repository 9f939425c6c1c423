-- ===== src/Lib.antt =====
-- Verification of GOAT (gRPC Over Any Transport): the Go package at the root of the repository.
--
-- GOAT carries gRPC calls as `Rpc` messages over any transport that reads and writes them. A client
-- connection (client.go) runs many calls over one transport: the multiplexer
-- (internal/client/multiplexer.go) numbers them, writes their requests and hands each response that
-- its read loop gets to the call with its id; a stream (internal/client/stream.go) has a read loop
-- of its own over what the multiplexer hands it. The server (server.go) dispatches every Rpc by its
-- header: a unary call is answered by a worker, an Rpc of a stream goes to the stream's channel, from
-- where the stream's handler reads it (internal/server/stream.go); what a unary handler sets as
-- header and trailer is gathered by internal/server/transport_stream.go. Metadata travel as key-value
-- pairs (internal/util.go), deadlines as a GRPC-Timeout header. Between client and server may stand
-- proxies (proxy.go), which record the route of a request for its response; http.go keeps a table of
-- connections over HTTP, demux.go splits one transport into connections, channel.go and websocket.go
-- adapt channels and websockets, and chained.go makes one interceptor of several.
--
-- What is where:
--   Base         tests, lists, text and maps; Base/Text has the parts of Go's package strings in use
--   Rpc          the messages and getters of gen/goatorepo/rpc.pb.go; error values
--   Chan         Go's buffered channels, and a store of them: an operation ends, waits or panics
--   Grpc         what is used of grpc-go's packages status and metadata: an interface with the
--                documented behaviour, and a value of it for examples
--   Stats        StatsStartServerRPC and StatsEndRPC of internal/util.go; Calls has whole calls. What is
--                told in between is in the modules Events of a component, for connections in
--                Server/Serve/Conns and Client/Dial
--   Transports   NewFnReadWriter, channel.go and websocket.go; Fifo and Frames have the theorems
--   Encoding     ToKeyValue and ToMetadata (Metadata, with Base64), parseRawMethod (Method),
--                headersFromContext, contextFromHeaders and parseGrpcTimeout (Timeout, with Decimal
--                for strconv and fmt, and Int for 64-bit integers)
--   Client/Mux   RpcMultiplexer: registerHandler, unregisterHandler, handleResponse, closeError,
--                CallUnaryMethod, NewStreamReadWriter; Loop: readLoop; Invariant, Delivery, Calls and
--                Steps (every interleaving of its operations) have the theorems
--   Client/Stream  clientStream: readLoop by turns, RecvMsg, SendMsg, CloseSend, Header, Trailer and
--                the teardown; EndToEnd joins it to the server's stream, Session to runStream;
--                Events has what stats handlers are told
--   Client/Conn  invoke and newStream of client.go; Unary joins a call to the server's answer, Served all
--                calls of a connection to the server's workers,
--                Failures has what goes wrong, Events what stats handlers are told
--   Client/Dial  dialoption.go, and NewClientConn, Close, Invoke and NewStream of client.go
--   Server       Registry: RegisterService and the tests of `serve`; Unary: processUnaryRpc;
--                Streams: processStreamingRpc, resetStream, unregisterStream and
--                cancelAndWaitForStreams; Stream: serverStream; Transport:
--                unaryServerTransportStream; RunStream: runStream, with a handler as a program of
--                calls, and serverTransportStream; Serve: Serve and the read loop of `serve` (Queues
--                and Isolation have its streams, Handed its unary calls, Workers the workers and the
--                writer, Answered the way from the read loop to the writer); Options: NewServer and its options
--   Proxy        AddClient, serveClients, forwardRpc and the queues that writeLoop empties; Route,
--                Queues, Forward and Bounds have the theorems, Clients the loops of a client
--   Http         retrieve, unregister, connectionCleaner, ServeHTTP, NewConnection, Read, Write and the
--                options; Table, Clean, Race and Runs (one operation after the other) have the theorems
--   Demux        Run with newConnLocked, and Cancel; Race has a Cancel in the middle of a turn of
--                Run, Writer the goroutine of a connection
--   Chained      ChainUnaryInterceptor and ChainStreamInterceptor
--   Tests        the theorems at concrete inputs
--
-- How the code is modelled: a struct is a record, an operation a function from the state to the next
-- state and what it wrote or returned. Code between Lock and Unlock is one step. A panic and a wait
-- are results (Chan.Exec). What the transport, the serialisation, the clock, a handler or a `select`
-- decides is an argument, so that a theorem covers every choice. A Go map is a list of entries in any
-- order; a pointer that may be nil is an Option; a channel that several parties hold stands in a
-- store under its address. Integers of 64 bits wrap where the code lets them: stream ids modulo 2^64,
-- the nanoseconds of a timeout as int64.
--
-- Bounds: the multiplexer's channels hold one response, a stream's channel of the server one Rpc, a
-- proxy's queue 16; a server has eight workers. Fuel: cancelAndWaitForStreams has as many
-- turns as there are streams at most, and a chain calls itself once for each interceptor; both are
-- shown to be enough. The other loops are recursion on their input.
--
-- Not modelled: type aliases, times and lengths that stats handlers are told, goroutines' start and
-- end, Stop and the Cancel of http.go, which end a context, logging, and the generated code but for
-- messages and getters. Calls of grpc-go, protobuf, net/http and the websocket library are parameters.
pub mod Base
pub mod Rpc
pub mod Encoding
pub mod Grpc
pub mod Stats
pub mod Transports
pub mod Server
pub mod Chan
pub mod Client
pub mod Proxy
pub mod Chained
pub mod Http
pub mod Demux
mod Tests
