-- ===== src/Tests/Http.antt =====
-- The connections of http.go.
use goat.Base.{◌∷◌, List, ◌≤◌, ◌≡◌, refl, arith, none, some, [], Bytes, codes, Bytes_eq, lookup}
use goat.Rpc.{Rpc, canceled, plain_header, Result, ok}
use goat.Http.{request, GoatOverHttp, new_goat_over_http, retrieve}
use goat.Http.Runs.{Use, posts, ticks, reads, writes, connects}

-- The default timeout of four minutes.
abbrev start : GoatOverHttp
start = new_goat_over_http 240

abbrev one_conn : GoatOverHttp
one_conn = (retrieve (codes "a") start).0

not_known : lookup (codes "a") start.conns ≡ none
unfolding new_goat_over_http lookup
not_known = refl

in_time : start.connection_timeout ≤ 500
unfolding new_goat_over_http
in_time = ground arith

abbrev incoming : Rpc
incoming = record {
  id = 7;
  header = some (plain_header (codes "/s/m") (codes "a") (codes "srv"));
  status = none;
  body = none;
  trailer = none;
  reset = none;
}

abbrev decode : Bytes → Result Rpc
decode d = ok incoming

abbrev address : Bytes → Result Bytes
address src = ok src

-- A request from "a", a tick that removes its connection, and a Write on that, which fails.
abbrev uses : List Use
uses =
    posts (some (ok []))
    ∷ ticks 500
    ∷ writes 500 0 (some (request canceled))
    ∷ connects (codes "a")
    ∷ reads 501 1 none
    ∷ []
