-- ===== src/Tests/Server.antt =====
-- The server: transport_stream.go and the dispatch, the unary calls and the streams of server.go.
use goat.Base.{
  ℕ, ◌≡◌, ◌↔◌, refl, arith, true, false, Option, none, some, List, [], ◌∷◌, ◌++◌, append-nil, Bytes,
  codes, Bytes_eq, bytes_eq_iff, ℕ_eq, lookup, insert, lookup-insert,
}
use goat.Rpc.{RequestHeader, plain_header, Rpc, Err, Result, ok, err, Codec}
use goat.Encoding.Metadata.{Md, get, to_metadata}
use goat.Encoding.Method.{full_method}
use goat.Encoding.Timeout.{ServerContext, context_from_headers}
use goat.Grpc.{plain_grpc}
use goat.Chan.{done}
use goat.Client.Mux.{answer}
use goat.Server.Transport.{
  Op, sets_header, sends_header, sets_trailer, or_empty, new_unary_transport, run,
}
use goat.Server.Transport.Collect.{join_values, header_mds, trailer_mds, run-values}
use goat.Server.Registry.{
  MethodDesc, StreamDesc, ServiceDesc, Server, service_info, dispatch, unary, streaming,
}
use goat.Server.Registry.Dispatch.{Asks, dispatch_iff}
use goat.Server.Unary.{Handled, Handler, decode_request, unary_response, process_unary_rpc}
use goat.Server.Unary.Answer.{Routed, Answered, process_unary_rpc-response}
use goat.Server.Streams.{StreamHandler, Streams}

-- A join of metadata that appends the values of each key.
abbrev union : Md → Md → Md
union [] b = b
union ((k, vs) ∷ a) b = insert k (vs ++ get k b) (union a b)

abbrev join : List Md → Md
join [] = []
join (md ∷ mds) = union md (join mds)

get-union : (k : Bytes) (a b : Md) → get k (union a b) ≡ get k a ++ get k b
unfolding get lookup
get-union k [] b = refl
get-union k ((j, vs) ∷ a) b =
    ground (arith, lookup-insert j k (vs ++ get j b) (union a b), bytes_eq_iff j k, get-union k a b)

get-join : (k : Bytes) (a b : Md) → get k (join (a ∷ b ∷ [])) ≡ get k a ++ get k b
unfolding get lookup
get-join k a b = ground (arith, get-union k a (union b []), get-union k b [], append-nil (get k b))

abbrev greeting : Md
greeting = (codes "k", codes "v" ∷ []) ∷ []

abbrev calls : List Op
calls =
    sets_header greeting ∷ sends_header greeting ∷ sets_header greeting ∷ sets_trailer greeting ∷ []

run-values_example :
    let s = run join (new_unary_transport (codes "/s/m")) calls in
    (get (codes "k") (or_empty s.headers) ≡ join_values (codes "k") (header_mds calls))
    × (get (codes "k") (or_empty s.trailers) ≡ join_values (codes "k") (trailer_mds calls))
run-values_example = run-values join get-join (codes "k") (codes "/s/m") calls

-- A server with one service of one unary method and one stream, whose handlers are numbers.
abbrev echo : MethodDesc ℕ ℕ
echo = record { method_name = codes "echo"; handler = 1 }

abbrev watch : StreamDesc ℕ ℕ
watch = record {
  stream_name = codes "watch";
  handler = 2;
  server_streams = true;
  client_streams = false;
}

abbrev desc : ServiceDesc ℕ ℕ
desc = record { service_name = codes "s"; methods = echo ∷ []; streams = watch ∷ [] }

abbrev server : Server ℕ ℕ
server = record { id = codes "srv"; services = (codes "s", service_info ℕ ℕ desc) ∷ [] }

abbrev header_to : Bytes → RequestHeader
header_to method = plain_header method (codes "cli") (codes "srv")

abbrev request : Bytes → Rpc
request method = record {
  id = 7;
  header = some (header_to method);
  status = none;
  body = some (record { body_data = some (codes "hi") });
  trailer = none;
  reset = none;
}

-- Messages that are their own serialisation, and a handler that answers with its request.
abbrev bytes_codec : Codec Bytes
bytes_codec = record { marshal = λ b. ok b; unmarshal = λ b. ok b }

abbrev no_text : Err → Bytes
no_text e = []

abbrev echoed : Result (Option Bytes) → Handled Bytes
echoed (ok m) = record { response = m; app_error = none; calls = [] }
echoed (err e) = record { response = none; app_error = some e; calls = [] }

abbrev handler : Handler Bytes
handler ctx r = echoed r

abbrev plain_context : ServerContext
plain_context = record { incoming = []; timeout = none }

abbrev response : Rpc
response =
    unary_response plain_grpc bytes_codec no_text (codes "/s/echo") (request (codes "/s/echo"))
      (header_to (codes "/s/echo")) (echoed (ok (some (codes "hi"))))

-- The hypotheses of the next two hold of this request.
process_response :
    process_unary_rpc plain_grpc bytes_codec no_text
      (codes "s")
      (codes "echo")
      handler
      (request (codes "/s/echo"))
      (header_to (codes "/s/echo"))
    ≡ done response
unfolding process_unary_rpc context_from_headers to_metadata full_method
process_response = refl

decodes : context_from_headers (header_to (codes "/s/echo")).headers ≡ some plain_context
unfolding context_from_headers to_metadata
decodes = refl

-- A stream whose handler has not fetched its last message.
abbrev busy : StreamHandler
busy = record {
  ch = record { buffer = request (codes "/s/watch") ∷ []; capacity = 1; closed = false };
  cancelled = false;
}

abbrev streams : Streams
streams = (7, busy) ∷ (9, busy) ∷ []

abbrev empty : Streams
empty = []

dispatch_iff_example :
    ((md : MethodDesc ℕ ℕ)
      → (dispatch ℕ ℕ server (request (codes "/s/echo")) ≡ unary (service_info ℕ ℕ desc) md) ↔ (
          (method : Bytes) × Asks server (request (codes "/s/echo")) (service_info ℕ ℕ desc) method
          × (lookup method (service_info ℕ ℕ desc).methods ≡ some md)))
    × ((sd : StreamDesc ℕ ℕ)
        → (dispatch ℕ ℕ server (request (codes "/s/echo")) ≡ streaming (service_info ℕ ℕ desc) sd)
          ↔ ((method : Bytes) × Asks server
                (request (codes "/s/echo"))
                (service_info ℕ ℕ desc)
                method
              × (lookup method (service_info ℕ ℕ desc).methods ≡ none)
              × (lookup method (service_info ℕ ℕ desc).streams ≡ some sd)))
dispatch_iff_example = dispatch_iff server (request (codes "/s/echo")) (service_info ℕ ℕ desc)

process_unary_rpc-response_example :
    Routed (request (codes "/s/echo")) (header_to (codes "/s/echo")) response
    × Answered plain_grpc bytes_codec no_text
        (handler plain_context
          (decode_request plain_grpc bytes_codec no_text (request (codes "/s/echo")).body))
        (answer plain_grpc response)
process_unary_rpc-response_example =
    process_unary_rpc-response plain_grpc bytes_codec no_text (codes "s") (codes "echo") handler
      (request (codes "/s/echo")) (header_to (codes "/s/echo")) response plain_context decodes
      process_response
