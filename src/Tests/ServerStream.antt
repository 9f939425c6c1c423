-- ===== src/Tests/ServerStream.antt =====
-- The server's stream of internal/server/stream.go.
use goat.Base.{false, ◌≡◌, none, some, List, [], ◌∷◌, Bytes, codes}
use goat.Rpc.{Rpc, canceled, ok, Codec}
use goat.Encoding.Metadata.{Md}
use goat.Grpc.{plain_grpc}
use goat.Server.Stream.{ServerStream, new_server_stream}
use goat.Server.Stream.Run.{Op, set_header_op, send_msg_op, send_trailer_op, written, reliable}
use goat.Server.Stream.Headers.{headers_of, sent_headers, headers_of-written}

-- Messages that are their own serialisation.
abbrev bytes_codec : Codec Bytes
bytes_codec = record { marshal = λ b. ok b; unmarshal = λ b. ok b }

abbrev fresh : ServerStream
fresh = record {
  id = 7;
  method = codes "/s/m";
  src = codes "srv";
  dst = codes "cli";
  headers = [];
  headers_sent = false;
  trailers = [];
  trailers_sent = false;
}

abbrev greeting : Md
greeting = (codes "k", codes "v" ∷ []) ∷ []

abbrev calls : List (Op Bytes)
calls =
    set_header_op greeting
    ∷ send_msg_op (codes "one")
    ∷ set_header_op greeting
    ∷ send_msg_op (codes "two")
    ∷ send_trailer_op (some canceled)
    ∷ send_trailer_op none
    ∷ []

headers_of-written_example :
    headers_of (
      written plain_grpc bytes_codec
        (new_server_stream 7 (codes "/s/m") (codes "srv") (codes "cli"))
        (reliable calls))
    ≡ sent_headers plain_grpc bytes_codec [] calls
headers_of-written_example =
    headers_of-written plain_grpc bytes_codec 7 (codes "/s/m") (codes "srv") (codes "cli") calls

abbrev final : Rpc
final = record {
  id = 7;
  header = none;
  status = some (record { code = 5; message = codes "gone"; details = [] });
  body = none;
  trailer = some (record { metadata = [] });
  reset = none;
}
