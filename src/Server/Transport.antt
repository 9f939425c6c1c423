-- ===== src/Server/Transport.antt =====
-- unaryServerTransportStream of internal/server/transport_stream.go, which collects the headers and
-- trailers that a unary handler sets. A map that was never set is nil.
pub mod Collect
use goat.Base.{
  ◌≡◌, ◌≢◌, refl, Bool, true, false, Option, none, some, List, [], ◌∷◌, ◌++◌, arith, if◌then◌else◌,
  Bytes, codes,
}
use goat.Rpc.{Err, failure}
use goat.Encoding.Metadata.{Md, get}
use goat.Grpc.{Grpc}

pub record UnaryTransport : Type 0 where
  pub full_method : Bytes
  pub headers : Option Md
  pub headers_sent : Bool
  pub trailers : Option Md

-- NewUnaryServerTransportStream
unfoldable pub new_unary_transport : Bytes → UnaryTransport
new_unary_transport name = record {
  full_method = name;
  headers = none;
  headers_sent = false;
  trailers = none;
}

-- GetHeaders and GetTrailers: a nil map has no entries.
abbrev pub or_empty : Option Md → Md
or_empty none = []
or_empty (some md) = md

abbrev already_sent : Err
already_sent = failure (codes "headers already sent")

-- What a unary handler may do with it.
pub data Op : Type 0 where
  sets_header sends_header sets_trailer : Md → Op

module _ (join : List Md → Md) where
  -- setHeaderLocked
  unfoldable pub set_header_locked : UnaryTransport → Md → UnaryTransport × Option Err
  set_header_locked s md =
      if s.headers_sent
      then (s, some already_sent)
      else (record s { headers = some (join (or_empty s.headers ∷ md ∷ [])) }, none)

  -- SetHeader
  unfoldable pub set_header : UnaryTransport → Md → UnaryTransport × Option Err
  unfolding set_header_locked
  set_header s md = set_header_locked s md

  abbrev mark_sent : UnaryTransport × Option Err → UnaryTransport × Option Err
  mark_sent (s, none) = (record s { headers_sent = true }, none)
  mark_sent (s, some e) = (s, some e)

  -- SendHeader, which sends nothing but closes the set of headers.
  unfoldable pub send_header : UnaryTransport → Md → UnaryTransport × Option Err
  unfolding set_header_locked
  send_header s md = mark_sent (set_header_locked s md)

  -- SetTrailer
  unfoldable pub set_trailer : UnaryTransport → Md → UnaryTransport
  set_trailer s md = record s { trailers = some (join (or_empty s.trailers ∷ md ∷ [])) }

  unfoldable pub apply : UnaryTransport → Op → UnaryTransport
  unfolding set_header send_header set_trailer
  apply s (sets_header md) = (set_header s md).0
  apply s (sends_header md) = (send_header s md).0
  apply s (sets_trailer md) = set_trailer s md

  unfoldable pub run : UnaryTransport → List Op → UnaryTransport
  run s [] = s
  run s (op ∷ ops) = run (apply s op) ops
