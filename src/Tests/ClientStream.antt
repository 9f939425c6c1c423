-- ===== src/Tests/ClientStream.antt =====
-- The client's stream of internal/client/stream.go, alone and with the server's.
use goat.Base.{◌≡◌, ◌≢◌, refl, true, false, none, some, List, [], ◌∷◌, Bytes, codes}
use goat.Rpc.{plain_header, Rpc, canceled, Result, ok, err, Codec, get_headers}
use goat.Encoding.Metadata.{to_metadata, header_value, is_bin}
use goat.Grpc.{plain_grpc}
use goat.Chan.{done, blocked, panicked}
use goat.Encoding.Base64.{decode}
use goat.Client.Stream.{
  ClientStream, new_stream, Hand, fetched, read_loop, channel_closed, recv_msg, header,
}
use goat.Client.Stream.Events.Told.{Told}
use goat.Client.Stream.Calls.{recv_msg-ne-panicked, recv_msg-undecodable}

abbrev bytes_codec : Codec Bytes
bytes_codec = record { marshal = λ b. ok b; unmarshal = λ b. ok b }

abbrev fresh : ClientStream
fresh = record {
  id = 7;
  method = codes "/s/m";
  source_address = codes "cli";
  dest_address = codes "srv";
  header = none;
  is_ready = false;
  header_err = none;
  is_done = false;
  r_err = none;
  trailer = none;
  closed = false;
  torn_down = false;
}

test_new_stream : new_stream 7 (codes "/s/m") (codes "cli") (codes "srv") ≡ fresh
unfolding new_stream
test_new_stream = refl

-- The context ends while the transport reads.
abbrev reads : List (Result Rpc × Hand)
reads = (err canceled, fetched) ∷ []

ended : (read_loop plain_grpc true fresh reads).stream.closed ≡ true
unfolding read_loop
ended = refl

recv_msg-ne-panicked_example :
    recv_msg plain_grpc bytes_codec fresh channel_closed
      (read_loop plain_grpc true fresh reads).stream
    ≢ panicked
recv_msg-ne-panicked_example =
    recv_msg-ne-panicked plain_grpc bytes_codec true fresh reads channel_closed refl (λ e. ended)

abbrev bad_rpc : Rpc
bad_rpc = record {
  id = 7;
  header = some (record (plain_header (codes "/s/m") (codes "srv") (codes "cli")) {
    headers = record { key = codes "k-bin"; value = codes "!" } ∷ [];
  });
  status = none;
  body = some (record { body_data = some (codes "hi") });
  trailer = none;
  reset = none;
}

bad_metadata : to_metadata (get_headers bad_rpc.header) ≡ none
unfolding to_metadata header_value is_bin decode
bad_metadata = refl

recv_msg-undecodable_example :
    let later = (read_loop plain_grpc false fresh ((ok bad_rpc, fetched) ∷ [])).stream in
    (recv_msg plain_grpc bytes_codec later channel_closed later ≡ done (none, none))
    × (header later ≡ blocked)
recv_msg-undecodable_example =
    recv_msg-undecodable plain_grpc bytes_codec false fresh bad_rpc fetched [] channel_closed refl
      refl bad_metadata

-- An Rpc without a header comes first.
abbrev two_reads : List (Result Rpc × Hand)
two_reads = (ok (record bad_rpc { header = none }), fetched) ∷ reads
