-- ===== src/Encoding/Timeout.antt =====
-- The `GRPC-Timeout` header: headersFromContext of client.go, and contextFromHeaders with
-- parseGrpcTimeout of server.go. A duration is an int64 count of nanoseconds; `time.Until` of the
-- deadline is an input. A context is what the code puts in it: metadata and a deadline.
pub mod Value
pub mod EndToEnd
use goat.Base.{
  ℕ, ◌+◌, ◌/◌, ◌≡◌, Bool, Option, none, some, List, [], ◌∷◌, ◌++◌, last, init, nat_eq, ◌==◌,
  if◌then◌else◌, Bytes, Bytes_eq, codes, to_lower,
}
use goat.Rpc.{KeyValue}
use goat.Encoding.Base64.{◌>>=◌}
use goat.Encoding.Metadata.{Md, to_key_value, to_metadata}
use goat.Encoding.Int.{ℤ, pos, negsuc, mul64}
use goat.Encoding.Decimal.{format, parse_int}

-- Whole milliseconds left, and 1 where that is not positive.
unfoldable pub timeout_millis : ℤ → ℕ
timeout_millis (pos n) = if nat_eq (n / 1000000) 0 then 1 else n / 1000000
timeout_millis (negsuc n) = 1

-- fmt.Sprintf("%dm", ms)
unfoldable pub format_timeout : ℤ → Bytes
unfolding timeout_millis
format_timeout d = format (timeout_millis d) ++ b'm' ∷ []

-- What the client's context carries: outgoing metadata, and the time until its deadline.
pub record ClientContext : Type 0 where
  pub outgoing : Option Md
  pub remaining : Option ℤ

unfoldable pub metadata_headers : (List Md → Md) → Option Md → List KeyValue
metadata_headers join none = []
metadata_headers join (some md) = to_key_value join (md ∷ [])

unfoldable pub timeout_headers : Option ℤ → List KeyValue
unfolding format_timeout
timeout_headers none = []
timeout_headers (some d) = record { key = codes "GRPC-Timeout"; value = format_timeout d } ∷ []

unfoldable pub headers_from_context : (List Md → Md) → ClientContext → List KeyValue
unfolding metadata_headers timeout_headers
headers_from_context join ctx = metadata_headers join ctx.outgoing ++ timeout_headers ctx.remaining

-- `getUnit`, in nanoseconds; 0 for a letter that is no unit.
unfoldable pub unit_nanos : ℕ → ℕ
unit_nanos c =
    if nat_eq c b'H'
    then 3600000000000
    else if nat_eq c b'M'
    then 60000000000
    else if nat_eq c b'S'
    then 1000000000
    else if nat_eq c b'm'
    then 1000000
    else if nat_eq c b'u'
    then 1000
    else if nat_eq c b'n'
    then 1
    else 0

unfoldable pub scale : ℕ → ℤ → Option ℤ
scale unit val = if nat_eq unit 0 then none else some (mul64 val (pos unit))

-- The product is taken at type time.Duration, an int64.
unfoldable pub parse_grpc_timeout : Bytes → Option ℤ
unfolding unit_nanos scale
parse_grpc_timeout timeout = do
  suffix ← last timeout
  val ← parse_int (init timeout)
  scale (unit_nanos suffix) val

-- The first header of that name that parses sets the deadline.
unfoldable pub find_timeout : List KeyValue → Option ℤ
find_timeout [] = none
find_timeout (h ∷ hs) =
    let rest = find_timeout hs in
    if to_lower h.key == codes "grpc-timeout"
    then elim (parse_grpc_timeout h.value) [ some t ↦ some t | none ↦ rest ]
    else rest

pub record ServerContext : Type 0 where
  pub incoming : Md
  pub timeout : Option ℤ

-- `none` is its error: the metadata could not be decoded.
unfoldable pub context_from_headers : List KeyValue → Option ServerContext
unfolding find_timeout
context_from_headers hs = do
  md ← to_metadata hs
  some (record { incoming = md; timeout = find_timeout hs })
