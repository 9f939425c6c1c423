-- ===== src/Tests/Proxy.antt =====
-- The proxy of proxy.go.
use mathlib.Core.List.{reverse}
use goat.Base.{◌≡◌, ◌↔◌, refl, none, some, [], ◌∷◌, ◌++◌, codes}
use goat.Rpc.{RequestHeader, plain_header, Rpc}
use goat.Chan.{done, panicked}
use goat.Server.Unary.{return_route}
use goat.Proxy.{Proxy, next_hop, forward_rpc}
use goat.Proxy.Route.{Serialises, sent_route, relay, relay-return_route}
use goat.Proxy.Queues.{Delivered}
use goat.Proxy.Forward.{passed, Refused, forward_rpc-panicked_iff, forward_rpc-Delivered}

abbrev carry : RequestHeader → RequestHeader
carry h = record h { proxy_next = sent_route h.proxy_next }

carry-Serialises : Serialises carry
carry-Serialises h = refl

abbrev request : RequestHeader
request = plain_header (codes "/s/m") (codes "cli") (codes "srv")

-- The request after the proxies "1" and "2".
abbrev arrived : RequestHeader
arrived = record request { proxy_record = codes "1" ∷ codes "2" ∷ [] }

abbrev response : RequestHeader
response = record (plain_header (codes "/s/m") (codes "srv") (codes "cli")) {
  proxy_next = some (codes "1" ∷ []);
}

request_arrives :
    relay carry (reverse (codes "2" ∷ codes "1" ∷ [])) request
    ≡ done (codes "srv" ∷ codes "srv" ∷ [], arrived)
unfolding next_hop
request_arrives = refl

response_route : response.proxy_next ≡ return_route arrived.proxy_record
unfolding return_route
response_route = refl

relay-return_route_example :
    (back : RequestHeader) × (relay carry (codes "2" ∷ codes "1" ∷ []) response
      ≡ done ((codes "1" ∷ []) ++ codes "cli" ∷ [], back))
relay-return_route_example =
    relay-return_route carry carry-Serialises (codes "2") (codes "1" ∷ [])
      (codes "srv" ∷ codes "srv" ∷ []) request arrived response refl refl request_arrives refl
      response_route

abbrev rpc : Rpc
rpc = record {
  id = 7;
  header = some request;
  status = none;
  body = none;
  trailer = none;
  reset = none;
}

abbrev proxy : Proxy
proxy = record { id = codes "1"; clients = [] }

forward_rpc-Delivered_example :
    (p' : Proxy) × (forward_rpc none (codes "cli") rpc proxy ≡ done p')
    × Delivered (codes "srv") (record rpc { header = some (passed (codes "1") request) }) proxy p'
forward_rpc-Delivered_example =
    forward_rpc-Delivered none rpc proxy request request (codes "srv") refl refl refl

forward_rpc-panicked_iff_example :
    (forward_rpc none (codes "other") rpc proxy ≡ panicked) ↔ Refused none (codes "other") rpc
forward_rpc-panicked_iff_example = forward_rpc-panicked_iff none (codes "other") rpc proxy
