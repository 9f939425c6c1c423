-- ===== src/Tests/Conn.antt =====
-- A unary call through client.go, the multiplexer and server.go.
use goat.Base.{ℕ, ◌≢◌, lookup, ℕ_eq, ◌≡◌, refl, Option, none, some, [], Bytes, codes}
use goat.Rpc.{Rpc, RequestHeader, Err, Result, ok, err, eof, Codec}
use goat.Encoding.Method.{full_method}
use goat.Encoding.Timeout.{ServerContext, ClientContext}
use goat.Grpc.{plain_grpc}
use goat.Chan.{make}
use goat.Client.Mux.{Mux, new_mux, next_stream_id}
use goat.Client.Conn.{ClientConn, request_header, request_rpc, open_stream}
use goat.Client.Conn.Failures.{open_stream-failed}
use goat.Server.Unary.{Handled, Handler, unary_response}

abbrev bytes_codec : Codec Bytes
bytes_codec = record { marshal = λ b. ok b; unmarshal = λ b. ok b }

abbrev no_text : Err → Bytes
no_text e = []

abbrev echoed : Result (Option Bytes) → Handled Bytes
echoed (ok m) = record { response = m; app_error = none; calls = [] }
echoed (err e) = record { response = none; app_error = some e; calls = [] }

abbrev handler : Handler Bytes
handler ctx r = echoed r

abbrev conn : ClientConn
conn = record { source_address = codes "cli"; dest_address = codes "srv" }

abbrev context : ClientContext
context = record { outgoing = none; remaining = none }

abbrev server_context : ServerContext
server_context = record { incoming = []; timeout = none }

abbrev asked : RequestHeader
asked = request_header plain_grpc.join conn (codes "/s/echo") context

abbrev request : Rpc
request = request_rpc (next_stream_id new_mux).0 asked (some (codes "hi"))

abbrev response : Rpc
response =
    unary_response plain_grpc bytes_codec no_text (full_method (codes "s") (codes "echo")) request
      asked (echoed (ok (some (codes "hi"))))

-- A response with the status OK and no body.
abbrev ok_response : Rpc
ok_response = record {
  id = 1;
  header = none;
  status = some (record { code = 0; message = []; details = [] });
  body = none;
  trailer = none;
  reset = none;
}

open_stream-failed_example :
    let o = open_stream plain_grpc.join conn (codes "/s/m") context (some eof) new_mux in
    let (id, m₁) = next_stream_id new_mux in
    (o.stream ≡ err eof)
    × (lookup id o.mux.handlers ≡ some m₁.next_chan)
    × (o.mux.chans m₁.next_chan ≡ make 1)
    × ((j : ℕ) → id ≢ j → lookup j o.mux.handlers ≡ lookup j new_mux.handlers)
unfolding new_mux
open_stream-failed_example =
    open_stream-failed plain_grpc.join conn (codes "/s/m") context eof new_mux refl
