-- ===== src/Proxy/Route.antt =====
-- The routes of proxy.go: a response, whose route server.go takes from the record of its request,
-- goes back by the proxies that the request went through.
use mathlib.Core.List.{reverse, reverse-cons}
use goat.Base.{
  append-nil, append_assoc, ◌≡◌, refl, sym, ◌∙◌, ap, true, Option, none, some, List, [], ◌∷◌, ◌++◌,
  last-append, init-append, length, length-append, ltb, arith, Bytes,
}
use goat.Rpc.{RequestHeader}
use goat.Chan.{Exec, done, ◌>>=◌}
use goat.Server.Unary.{return_route}
use goat.Proxy.{next_hop}

-- A route as it arrives: an empty list is not told from none.
abbrev pub sent_route : Option (List Bytes) → Option (List Bytes)
sent_route none = none
sent_route (some []) = none
sent_route (some (id ∷ ids)) = some (id ∷ ids)

-- What a transport does to a header that it serialises.
abbrev pub Serialises : (RequestHeader → RequestHeader) → Type 0
Serialises carry = (h : RequestHeader) → carry h ≡ record h { proxy_next = sent_route h.proxy_next }

module _ (carry : RequestHeader → RequestHeader) where
  -- A header that goes through some proxies, one after the other, whichever way: the destinations
  -- that they forward it to, and how it arrives.
  abbrev pub relay : List Bytes → RequestHeader → Exec (List Bytes × RequestHeader)
  relay [] h = done ([], h)
  relay (id ∷ ids) h =
      next_hop id h >>= λ hop. relay ids (carry hop.1) >>= λ out. done (hop.0 ∷ out.0, out.1)

abbrev recorded : Bytes → RequestHeader → RequestHeader
recorded id h = record h { proxy_record = h.proxy_record ++ id ∷ [] }

next_hop-none :
    (id : Bytes) (h : RequestHeader)
    → h.proxy_next ≡ none
    → next_hop id h ≡ done (h.destination, recorded id h)
unfolding next_hop
next_hop-none id h e =
    rw (e, next_hop) (ap (λ r. done (h.destination, record (recorded id h) { proxy_next = r })) e)

next_hop-some :
    (id : Bytes) (h : RequestHeader) (next_ : Bytes) (route : List Bytes)
    → h.proxy_next ≡ some (route ++ next_ ∷ [])
    → next_hop id h ≡ done (next_, record (recorded id h) { proxy_next = some route })
unfolding next_hop
next_hop-some id h next_ route e =
    rw (e, next_hop) (rw (last-append route next_) (rw (init-append route next_) refl))

sent_route-append :
    (ids : List Bytes) (id : Bytes) → sent_route (some (ids ++ id ∷ [])) ≡ some (ids ++ id ∷ [])
sent_route-append [] id = refl
sent_route-append (x ∷ ids) id = refl

return_route-append :
    (ids : List Bytes) (id : Bytes) → return_route (ids ++ id ∷ []) ≡ sent_route (some ids)
unfolding return_route
return_route-append [] id = refl
return_route-append (x ∷ ids) id =
    let long : ltb 1 (length (x ∷ ids ++ id ∷ [])) ≡ true =
      ground (arith, length-append ids (id ∷ [])) in
    rw long (rw (init-append (x ∷ ids) id) refl)

module _ (carry : RequestHeader → RequestHeader) (serialises : Serialises carry) where
  carry-none : (h : RequestHeader) → h.proxy_next ≡ none → carry h ≡ h
  carry-none h e = serialises h ∙ ap (λ r. record h { proxy_next = r }) (ap sent_route e ∙ sym e)

  -- A request without a route only gathers the record.
  relay_request :
      (ids : List Bytes) (h : RequestHeader)
      → h.proxy_next ≡ none
      → (destinations : List Bytes) × (relay carry ids h
          ≡ done (destinations, record h { proxy_record = h.proxy_record ++ ids }))
  relay_request [] h e =
      ([], ap (λ r. done ([], record h { proxy_record = r })) (sym (append-nil h.proxy_record)))
  relay_request (id ∷ ids) h e =
      let h' = recorded id h in
      let (destinations, same) = relay_request ids h' e in
      (
        h.destination ∷ destinations,
        rw (next_hop-none id h e) (
            rw (carry-none h' e) (
              rw same (
                ap (λ r. done (h.destination ∷ destinations, record h { proxy_record = r }))
                  (append_assoc h.proxy_record (id ∷ []) ids)))),
      )

  relay_response :
      (id : Bytes) (ids : List Bytes) (h : RequestHeader)
      → h.proxy_next ≡ sent_route (some (reverse ids))
      → (arrived : RequestHeader) × (relay carry (id ∷ ids) h
          ≡ done (ids ++ h.destination ∷ [], arrived))
  relay_response id [] h e = (carry (recorded id h), rw (next_hop-none id h e) refl)
  relay_response id (next_ ∷ ids) h e =
      let route : h.proxy_next ≡ some (reverse ids ++ next_ ∷ []) =
        e
        ∙ ap (λ r. sent_route (some r)) (reverse-cons next_ ids)
        ∙ sent_route-append (reverse ids) next_ in
      let h' = record (recorded id h) { proxy_next = some (reverse ids) } in
      let (arrived, same) =
        relay_response next_ ids (carry h') (ap (λ x. x.proxy_next) (serialises h')) in
      let to : (carry h').destination ≡ h.destination = ap (λ x. x.destination) (serialises h') in
      (arrived, rw (next_hop-some id h next_ (reverse ids) route) (rw same (rw to refl)))

  -- If the transports between proxies change nothing in a header but to send an empty route as none,
  -- and a request without a route and a record passes some proxies, then the response of a unary
  -- call or the reset of a stream, which takes its route from the record of the request and its
  -- destination from the source, is forwarded by each of these proxies, the last one first, to the
  -- one before it, and by the first one to the source.
  pub relay-return_route :
      (id : Bytes) (ids destinations : List Bytes) (request arrived response : RequestHeader)
      → request.proxy_next ≡ none
      → request.proxy_record ≡ []
      → relay carry (reverse (id ∷ ids)) request ≡ done (destinations, arrived)
      → response.destination ≡ arrived.source
      → response.proxy_next ≡ return_route arrived.proxy_record
      → (back : RequestHeader) × (relay carry (id ∷ ids) response
          ≡ done (ids ++ request.source ∷ [], back))
  relay-return_route id ids destinations request arrived response no_route no_record went to route =
      let (_, went') = relay_request (reverse (id ∷ ids)) request no_route in
      let same : arrived
          ≡ record request { proxy_record = request.proxy_record ++ reverse (id ∷ ids) } =
        cc in
      let gathered : arrived.proxy_record ≡ reverse ids ++ id ∷ [] =
        ap (λ x. x.proxy_record) same ∙ rw no_record (reverse-cons id ids) in
      let home : response.destination ≡ request.source = to ∙ ap (λ x. x.source) same in
      let (back, came) =
        relay_response id ids response
          (route ∙ ap return_route gathered ∙ return_route-append (reverse ids) id) in
      (back, rw (came, home) refl)
