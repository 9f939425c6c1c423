-- ===== src/Encoding/Timeout/Value.antt =====
-- The value of a timeout header, from the client's deadline to the server's (client.go, server.go).
use goat.Base.{
  ℕ, ◌-◌, ◌*◌, ◌/◌, ◌^◌, ◌≤◌, ◌<◌, ◌≡◌, ◌∙◌, some, [], ◌∷◌, ◌++◌, arith, last-append, init-append,
}
use goat.Encoding.Int.{pos, negsuc, mul64-pos, mul64-neg}
use goat.Encoding.Decimal.{format}
use goat.Encoding.Decimal.RoundTrip.{parse_int-format}
use goat.Encoding.Timeout.{timeout_millis, format_timeout, unit_nanos, scale, parse_grpc_timeout}

parse_grpc_timeout-format :
    (n suffix : ℕ)
    → n < 2 ^ 63
    → parse_grpc_timeout (format n ++ suffix ∷ []) ≡ scale (unit_nanos suffix) (pos n)
unfolding parse_grpc_timeout
parse_grpc_timeout-format n suffix h =
    rw (last-append (format n) suffix, init-append (format n) suffix, parse_int-format n h)

-- The time left, in nanoseconds, that a server reads: whole milliseconds, and at least one.
pub parse_grpc_timeout-format_timeout :
    (n : ℕ)
    → n < 2 ^ 63
    → parse_grpc_timeout (format_timeout (pos n)) ≡ some (pos (timeout_millis (pos n) * 1000000))
unfolding format_timeout
parse_grpc_timeout-format_timeout n h =
    parse_grpc_timeout-format (timeout_millis (pos n)) b'm' (unfold timeout_millis in ground arith)
    ∙ unfold scale unit_nanos timeout_millis in
      ground (arith, mul64-pos (n / 1000000) 1000000, mul64-pos 1 1000000)

-- A timeout of 2562048 to 5124095 hours, which the wire format's eight digits allow, is read as a
-- negative duration: the product wraps around.
pub parse_grpc_timeout_wraps :
    (n : ℕ)
    → 2562048 ≤ n
    → n ≤ 5124095
    → parse_grpc_timeout (format n ++ b'H' ∷ []) ≡ some (negsuc (2 ^ 64 - 1 - n * 3600000000000))
parse_grpc_timeout_wraps n low high =
    parse_grpc_timeout-format n b'H' (omega arith)
    ∙ unfold scale unit_nanos in ground (arith, mul64-neg n 3600000000000)
