-- ===== src/Tests/Options.antt =====
-- The options of server.go, with the chains of chained.go, over numbers.
use goat.Base.{ℕ, ◌+◌, ◌*◌, ◌≡◌, none, List, [], ◌∷◌, codes}
use goat.Chan.{done, ◌>>=◌}
use goat.Server.Options.{
  Kind, InterceptorOf, ServerOption, unary_option, stream_option, stats_option, chain_unary,
  configure_server,
}
use goat.Server.Options.Effect.{Chains, last_unary, last_stream, stats_of, configure_server-Effect}

abbrev numbers : Kind
numbers = record { first = ℕ; second = ℕ; info = ℕ; result = ℕ }

-- One adds to the request, one doubles the response.
abbrev adds : InterceptorOf numbers
adds a b info h = h a (b + 1)

abbrev doubles : InterceptorOf numbers
doubles a b info h = h a b >>= λ r. done (2 * r)

abbrev options : List (ServerOption numbers numbers ℕ)
options =
    unary_option doubles
    ∷ stats_option 5
    ∷ chain_unary (adds ∷ doubles ∷ [])
    ∷ stream_option adds
    ∷ stats_option 6
    ∷ []

configure_server-Effect_example :
    let s = configure_server (codes "srv") options in
    Chains s.unary_interceptor (last_unary none options)
    × Chains s.stream_interceptor (last_stream none options)
    × (s.stats_handlers ≡ stats_of options)
configure_server-Effect_example = configure_server-Effect (codes "srv") options
