-- ===== src/Rpc.antt =====
-- The wire messages of gen/goatorepo/rpc.pb.go with their nil-safe getters, and error values.
-- A pointer field is an `Option`; so is a slice that the code compares with nil. A `uint64` or
-- `int32` is a number; a status code is only copied and compared with 0 (codes.OK).
use goat.Base.{ℕ, Option, none, some, List, [], Bytes}

pub record KeyValue : Type 0 where
  pub key : Bytes
  pub value : Bytes

pub record RequestHeader : Type 0 where
  pub method : Bytes
  pub headers : List KeyValue
  pub source : Bytes
  pub destination : Bytes
  pub proxy_record : List Bytes
  pub proxy_next : Option (List Bytes)

pub record ResponseStatus : Type 0 where
  pub code : ℕ
  pub message : Bytes
  pub details : List Bytes

pub record Body : Type 0 where
  pub body_data : Option Bytes

pub record Trailer : Type 0 where
  pub metadata : List KeyValue

pub record Reset : Type 0 where
  pub reset_type : Bytes

pub record Rpc : Type 0 where
  pub id : ℕ
  pub header : Option RequestHeader
  pub status : Option ResponseStatus
  pub body : Option Body
  pub trailer : Option Trailer
  pub reset : Option Reset

-- A header as the code writes it: method, source and destination, and nothing else.
abbrev pub plain_header : Bytes → Bytes → Bytes → RequestHeader
plain_header method source destination = record {
  method = method;
  headers = [];
  source = source;
  destination = destination;
  proxy_record = [];
  proxy_next = none;
}

-- `GetHeaders` of a header that may be nil.
abbrev pub get_headers : Option RequestHeader → List KeyValue
get_headers none = []
get_headers (some h) = h.headers

-- `GetStatus().GetCode()` and its neighbours: a nil status reads as code 0 with no message.
abbrev pub get_code : Option ResponseStatus → ℕ
get_code none = 0
get_code (some s) = s.code

abbrev pub get_message : Option ResponseStatus → Bytes
get_message none = []
get_message (some s) = s.message

abbrev pub get_details : Option ResponseStatus → List Bytes
get_details none = []
get_details (some s) = s.details

abbrev pub get_metadata : Option Trailer → List KeyValue
get_metadata none = []
get_metadata (some t) = t.metadata

abbrev pub get_data : Option Body → Option Bytes
get_data none = none
get_data (some b) = b.body_data

-- Error values: those of package context, io.EOF, a gRPC status, a message made by fmt.Errorf, and
-- one wrapped by another.
pub data Err : Type 0 where
  canceled deadline_exceeded eof : Err
  status_err : ResponseStatus → Err
  failure : Bytes → Err
  wrapped : Bytes → Err → Err

-- A result and an error, of which the error is nil exactly on success.
pub data Result {ℓ} (A : Type ℓ) : Type ℓ where
  ok : A → Result A
  err : Err → Result A

-- encoding.CodecV2, which serialises messages: code outside the repository.
pub record Codec (M : Type 0) : Type 0 where
  pub marshal : M → Result Bytes
  pub unmarshal : Bytes → Result M
