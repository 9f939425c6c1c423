-- ===== src/Tests/Encoding.antt =====
-- Headers, timeouts and method names of internal/util.go, client.go and server.go.
use goat.Base.{
  ℕ, ◌≤◌, ◌<◌, ◌+◌, ◌*◌, insert, ◌*◌, ◌≡◌, refl, none, some, [], ◌∷◌, arith, Bytes, Bytes_eq, codes,
  if◌then◌else◌, ◌==◌,
}
use goat.Grpc.{plain_grpc}
use goat.Encoding.Base64.{digit_char, char_digit, encode, decode, decode_end}
use goat.Encoding.Base64.RoundTrip.{decode-encode}
use goat.Encoding.Metadata.{Md, get}
use goat.Encoding.Metadata.RoundTrip.{values}
use goat.Encoding.Int.{pos, mul64}
use goat.Encoding.Decimal.{parse_int}
use goat.Encoding.Timeout.{
  format_timeout, parse_grpc_timeout, headers_from_context, context_from_headers, ServerContext,
}
use goat.Encoding.Timeout.EndToEnd.{timeout_key, context_from_headers-headers_from_context}
use goat.Encoding.Method.{last_slash, take, drop, strip_slash, split_method, parse_raw_method}

encode_padded : encode (codes "goat!") ≡ codes "Z29hdCE="
unfolding encode digit_char
encode_padded = refl

decode_broken_lines : decode (codes "Z29h\ndCE=") ≡ some (codes "goat!")
unfolding decode char_digit decode_end
decode_broken_lines = refl

decode_short : decode (codes "Z29hdC") ≡ none
unfolding decode char_digit
decode_short = refl

parsed_method : parse_raw_method (codes "/pkg.Svc/Call") ≡ some (codes "pkg.Svc", codes "Call")
unfolding parse_raw_method split_method last_slash take drop strip_slash
parsed_method = refl

millis : parse_grpc_timeout (codes "1500m") ≡ some (pos 1500000000)
unfolding parse_grpc_timeout parse_int mul64
millis = refl

no_unit : parse_grpc_timeout (codes "15x") ≡ none
unfolding parse_grpc_timeout parse_int
no_unit = refl

decode-encode_example : decode (encode (0 ∷ 255 ∷ 7 ∷ 200 ∷ [])) ≡ some (0 ∷ 255 ∷ 7 ∷ 200 ∷ [])
decode-encode_example = decode-encode (0 ∷ 255 ∷ 7 ∷ 200 ∷ []) (omega arith)

abbrev user_metadata : Md
user_metadata =
    (codes "User", codes "ada" ∷ codes "bob" ∷ []) ∷ (codes "key-bin", (0 ∷ 255 ∷ []) ∷ []) ∷ []

context_from_headers-headers_from_context_example :
    (ctx : ServerContext) × (ms : ℕ) × (context_from_headers (
        headers_from_context plain_grpc.join
          (record { outgoing = some user_metadata; remaining = some (pos 2500000) }))
      ≡ some ctx)
    × (ctx.timeout ≡ some (pos (ms * 1000000)))
    × (1000000 ≤ 2500000 → (ms * 1000000 ≤ 2500000) × (2500000 < ms * 1000000 + 1000000))
    × (2500000 < 1000000 → ms ≡ 1)
    × ((k : Bytes)
        → get k ctx.incoming ≡ (
            if timeout_key == k
            then format_timeout (pos 2500000) ∷ []
            else values k (plain_grpc.join (user_metadata ∷ []))))
unfolding get values insert
context_from_headers-headers_from_context_example =
    context_from_headers-headers_from_context plain_grpc.join user_metadata 2500000 (omega arith)
      refl (omega arith)
