-- ===== src/Tests/RunStream.antt =====
-- A whole stream of server.go, and what its client reads.
use goat.Base.{true, Option, none, some, List, [], ◌∷◌, Bytes, codes, ℕ_eq}
use goat.Rpc.{RequestHeader, plain_header, Rpc, canceled, ok, Codec}
use goat.Encoding.Metadata.{Md}
use goat.Grpc.{plain_grpc}
use goat.Chan.{value}
use goat.Server.Streams.{Streams}
use goat.Server.RunStream.{
  ReadWake, on_channel, on_context, WriteWake, taken, StreamProgram, returns, calls, receives,
  sets_header, sends_msg, StreamServerInfo, run_stream,
}
use goat.Client.Stream.{ClientStream, new_stream}

abbrev bytes_codec : Codec Bytes
bytes_codec = record { marshal = λ b. ok b; unmarshal = λ b. ok b }

abbrev greeting : Md
greeting = (codes "k-bin", codes "v" ∷ []) ∷ []

abbrev info : StreamServerInfo
info = record { info_method = codes "/s/m"; is_client_stream = true; is_server_stream = true }

-- A handler that sets a header, answers one message with itself, and ends with the error of its
-- second read.
abbrev answer_with : Option Bytes → Bytes
answer_with none = codes "nothing"
answer_with (some d) = d

abbrev handler : StreamProgram Bytes
handler = calls (sets_header greeting) (λ e.
    receives
      (λ r. calls (sends_msg (answer_with r.message)) (λ e'. receives (λ r'. returns r'.error))))

abbrev header : RequestHeader
header = plain_header (codes "/s/m") (codes "cli") (codes "srv")

abbrev message : Rpc
message = record {
  id = 7;
  header = some header;
  status = none;
  body = some (record { body_data = some (codes "hi") });
  trailer = none;
  reset = none;
}

abbrev reads : List ReadWake
reads = on_channel (value message) ∷ on_context canceled ∷ []

abbrev writes : List WriteWake
writes = taken ∷ taken ∷ taken ∷ []

abbrev no_streams : Streams
no_streams = []

abbrev run : goat.Server.RunStream.StreamRun plain_grpc bytes_codec
run = run_stream plain_grpc bytes_codec none info handler 7 header [] reads writes no_streams

abbrev fresh : ClientStream
fresh = new_stream 7 (codes "/s/m") (codes "cli") (codes "srv")
