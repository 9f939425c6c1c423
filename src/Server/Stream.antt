-- ===== src/Server/Stream.antt =====
-- internal/server/stream.go: the server's end of one stream.
-- A transport's answer to a write is an argument, `none` for success. An operation returns the new
-- stream, what it wrote, what it told each stats handler, and its own error.
pub mod Run
pub mod Headers
pub mod Status
use goat.Base.{
  ℕ, Bool, true, false, Option, none, some, List, [], ◌∷◌, ◌++◌, nat_eq, if◌then◌else◌, Bytes,
  codes,
}
use goat.Rpc.{
  KeyValue, RequestHeader, ResponseStatus, Rpc, plain_header, get_code, get_message, get_details,
  get_data, Err, eof, failure, wrapped, Result, ok, err, Codec,
}
use goat.Encoding.Metadata.{Md, to_key_value}
use goat.Grpc.{Grpc}
use goat.Stats.{Event, out_header, out_trailer, out_payload, in_payload}

pub record ServerStream : Type 0 where
  pub id : ℕ
  pub method : Bytes
  pub src : Bytes
  pub dst : Bytes
  pub headers : List Md
  pub headers_sent : Bool
  pub trailers : List Md
  pub trailers_sent : Bool

pub record Outcome : Type 0 where
  pub next : ServerStream
  pub writes : List Rpc
  pub stats : List Event
  pub error : Option Err

-- What RecvMsg leaves: the message if one was decoded, and the error.
pub record Received (M : Type 0) : Type 0 where
  pub message : Option M
  pub stats : List Event
  pub error : Option Err

-- NewServerStream
unfoldable pub new_server_stream : ℕ → Bytes → Bytes → Bytes → ServerStream
new_server_stream id method src dst = record {
  id = id;
  method = method;
  src = src;
  dst = dst;
  headers = [];
  headers_sent = false;
  trailers = [];
  trailers_sent = false;
}

abbrev headers_already_sent : Err
headers_already_sent = failure (codes "headers already sent")

abbrev closed_for_writing : Err
closed_for_writing = failure (codes "stream closed for writing (wrote trailers)")

-- codes.Internal
abbrev pub internal_code : ℕ
internal_code = 13

-- An Rpc of this stream with nothing but its header filled in.
abbrev base_rpc : ServerStream → List KeyValue → Rpc
base_rpc s kvs = record {
  id = s.id;
  header = some (record (plain_header s.method s.src s.dst) { headers = kvs });
  status = none;
  body = none;
  trailer = none;
  reset = none;
}

module _ (g : Grpc) where
  open g use {join, from_error, status_error}

  -- setHeader: the headers count as sent only after a write that succeeds.
  unfoldable pub set_header_with : ServerStream → Md → Bool → Option Err → Outcome
  set_header_with s md send w =
      let held = record s { headers = s.headers ++ md ∷ [] } in
      if s.headers_sent
      then record { next = s; writes = []; stats = []; error = some headers_already_sent }
      else if send
      then record {
        next = record held { headers_sent = elim w [ none ↦ true | some e ↦ false ] };
        writes = base_rpc s (to_key_value join held.headers) ∷ [];
        stats = out_header (join held.headers) ∷ [];
        error = w;
      }
      else record { next = held; writes = []; stats = []; error = none }

  -- SetHeader
  unfoldable pub set_header : ServerStream → Md → Outcome
  unfolding set_header_with
  set_header s md = set_header_with s md false none

  -- SendHeader
  unfoldable pub send_header : ServerStream → Md → Option Err → Outcome
  unfolding set_header_with
  send_header s md w = set_header_with s md true w

  -- SetTrailer: after the trailers were sent it only logs.
  unfoldable pub set_trailer : ServerStream → Md → Outcome
  set_trailer s md = record {
    next = if s.trailers_sent then s else record s { trailers = s.trailers ++ md ∷ [] };
    writes = [];
    stats = [];
    error = none;
  }

  -- The headers that the next message takes along.
  unfoldable pub pending_headers : ServerStream → List KeyValue
  pending_headers s = if s.headers_sent then [] else to_key_value join s.headers

  -- SendMsg once the message is serialised.
  unfoldable pub send_body : ServerStream → Bytes → Option Err → Outcome
  unfolding pending_headers
  send_body s body w = record {
    next = record s { headers_sent = true };
    writes =
        record (base_rpc s (pending_headers s)) { body = some (record { body_data = some body }) }
        ∷ [];
    stats = (if s.headers_sent then [] else out_header (join s.headers) ∷ []) ++ out_payload ∷ [];
    error = w;
  }

  -- The status of a stream that ends with `e`: an error never reports OK.
  unfoldable pub trailer_status : Option Err → ResponseStatus
  trailer_status none = record { code = 0; message = codes "OK"; details = [] }
  trailer_status (some e) =
      let st = (from_error e).0 in
      if nat_eq st.code 0 then record st { code = internal_code } else st

  -- SendTrailer
  unfoldable pub send_trailer : ServerStream → Option Err → Option Err → Outcome
  unfolding pending_headers trailer_status
  send_trailer s e w =
      if s.trailers_sent
      then record { next = s; writes = []; stats = []; error = some closed_for_writing }
      else record {
        next = record s { trailers_sent = true; headers_sent = true };
        writes =
            record (base_rpc s (pending_headers s)) {
              status = some (trailer_status e);
              trailer = some (record { metadata = to_key_value join s.trailers });
            }
            ∷ [];
        stats = out_trailer (join s.trailers) ∷ [];
        error = w;
      }

  module _ {M : Type 0} (c : Codec M) where
    open c use {marshal, unmarshal}

    -- SendMsg
    unfoldable pub send_msg : ServerStream → M → Option Err → Outcome
    unfolding send_body
    send_msg s m w = elim (marshal m) [
      | err e ↦ record { next = s; writes = []; stats = []; error = some e }
      | ok body ↦ send_body s body w
    ]

    -- RecvMsg of an Rpc with a trailer: the end of the client's messages. `errors.Wrap` of nil is nil.
    unfoldable pub end_of_messages : Option ResponseStatus → Option Err
    end_of_messages st =
        if nat_eq (get_code st) 0
        then some eof
        else elim (status_error
            (record { code = get_code st; message = get_message st; details = get_details st })) [
              | none ↦ none
              | some e ↦ some (wrapped (codes "RecvMsg") e)
            ]

    abbrev data_or_empty : Option Bytes → Bytes
    data_or_empty none = []
    data_or_empty (some d) = d

    unfoldable pub receive_body : Result M → Received M
    receive_body (err e) = record { message = none; stats = []; error = some e }
    receive_body (ok m) = record { message = some m; stats = in_payload ∷ []; error = none }

    -- RecvMsg, given what the transport read.
    unfoldable pub recv_msg : Result Rpc → Received M
    unfolding end_of_messages receive_body
    recv_msg (err e) = record {
      message = none;
      stats = [];
      error = some (wrapped (codes "RecvMsg Read") e);
    }
    recv_msg (ok rpc) = elim rpc.trailer [
      | some t ↦ record { message = none; stats = []; error = end_of_messages rpc.status }
      | none ↦ receive_body (unmarshal (data_or_empty (get_data rpc.body)))
    ]
