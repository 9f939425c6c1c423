-- ===== src/Server/Unary/Answer.antt =====
-- What a client makes of the response to its unary call: processUnaryRpc of server.go with
-- CallUnaryMethod of internal/client/multiplexer.go.
use goat.Encoding.Method.{full_method}
use goat.Encoding.Metadata.{to_key_value}
use goat.Server.Transport.{or_empty, new_unary_transport, run}
use goat.Base.{
  subst, ◌≤◌, ◌≡◌, ◌≢◌, ◌↔◌, refl, inl, inr, Option, none, some, [], ◌∷◌, arith, Option-cases,
  Bytes, length, ◌<◌, init,
}
use goat.Rpc.{
  RequestHeader, plain_header, ResponseStatus, Body, Rpc, Err, status_err, Result, ok, err, Codec,
}
use goat.Encoding.Metadata.{to_metadata}
use goat.Encoding.Timeout.{ServerContext, context_from_headers}
use goat.Grpc.{Grpc}
use goat.Chan.{done, panicked}
use goat.Client.Mux.{answer}
use goat.Server.Unary.{
  Handled, Handler, return_route, decode_request, unary_response, process_unary_rpc,
}

-- The id and the way back of a request.
abbrev pub Routed : Rpc → RequestHeader → Rpc → Type 0
Routed rpc h r =
    (r.id ≡ rpc.id)
    × ((rh : RequestHeader) × (r.header ≡ some rh)
        × (rh.source ≡ h.destination)
        × (rh.destination ≡ h.source)
        × (1 < length h.proxy_record → rh.proxy_next ≡ some (init h.proxy_record))
        × (length h.proxy_record ≤ 1 → rh.proxy_next ≡ none))

module _ (g : Grpc) {M : Type 0} (c : Codec M) (text : Err → Bytes) where
  -- The server panics on a unary call exactly when the metadata of its header cannot be decoded.
  pub process_unary_rpc-panicked_iff :
      (service method : Bytes) (handler : Handler M) (rpc : Rpc) (h : RequestHeader)
      → (process_unary_rpc g c text service method handler rpc h ≡ panicked)
        ↔ (to_metadata h.headers ≡ none)
  unfolding process_unary_rpc context_from_headers
  process_unary_rpc-panicked_iff service method handler rpc h = ground arith

  pub process_unary_rpc-done :
      (service method : Bytes) (handler : Handler M) (rpc : Rpc) (h : RequestHeader) (r : Rpc)
      → process_unary_rpc g c text service method handler rpc h ≡ done r
      → (ctx : ServerContext) × (context_from_headers h.headers ≡ some ctx)
        × (unary_response g c text
              (full_method service method)
              rpc
              h
              (handler ctx (decode_request g c text rpc.body))
            ≡ r)
  unfolding process_unary_rpc
  process_unary_rpc-done service method handler rpc h r e =
      elim (Option-cases (context_from_headers h.headers)) [
        | inl n ↦ let e' : panicked ≡ done r = rw (n, process_unary_rpc) at e in absurd (cc)
        | inr (ctx, k) ↦
            let e' : done (
                  unary_response g c text (full_method service method) rpc h
                    (handler ctx (decode_request g c text rpc.body)))
                ≡ done r =
              rw (k, process_unary_rpc) at e in
            (ctx, k, cc)
      ]

  -- What the client's call returns where the handler gave a response and no error, and where it
  -- failed with a status that is not OK.
  abbrev pub Answered : Handled M → Result (Option Body) → Type 0
  Answered out a =
      ((m : M) (b : Bytes)
        → out.app_error ≡ none
        → out.response ≡ some m
        → c.marshal m ≡ ok b
        → a ≡ ok (some (record { body_data = some b })))
      × ((st : ResponseStatus)
          → st.code ≢ 0
          → out.app_error ≡ some (status_err st)
          → a ≡ err (status_err st))

  unary_response-route :
      (name : Bytes) (rpc : Rpc) (h : RequestHeader) (out : Handled M)
      → Routed rpc h (unary_response g c text name rpc h out)
  unfolding unary_response
  unary_response-route name rpc h out = (
    refl,
    (
      record (plain_header name h.destination h.source) {
        headers =
            to_key_value g.join
              (or_empty (run g.join (new_unary_transport name) out.calls).headers ∷ []);
        proxy_next = return_route h.proxy_record;
      },
      refl,
      refl,
      refl,
      (λ n. ground arith),
      (λ n. ground arith),
    ),
  )

  answer-unary_response :
      (name : Bytes) (rpc : Rpc) (h : RequestHeader) (out : Handled M)
      → Answered out (answer g (unary_response g c text name rpc h out))
  unfolding unary_response answer
  answer-unary_response name rpc h out = (
    (λ m b none_failed given serialised. ground arith),
    λ st bad failed. ground (arith, g.from_error-status st, g.status_error-err st),
  )

  -- A response carries the id of its request and goes back to where that came from, by the proxies
  -- that it came through, less the last, if there were at least two.
  pub process_unary_rpc-route :
      (service method : Bytes) (handler : Handler M) (rpc : Rpc) (h : RequestHeader) (r : Rpc)
      → process_unary_rpc g c text service method handler rpc h ≡ done r
      → Routed rpc h r
  process_unary_rpc-route service method handler rpc h r e =
      let (ctx, _, same) = process_unary_rpc-done service method handler rpc h r e in
      subst (Routed rpc h) same (unary_response-route _ rpc h _)

  -- A client's call returns the serialised response where the handler gave one and no error, and
  -- the handler's status where it failed with one that is not OK.
  pub answer-process_unary_rpc :
      (service method : Bytes) (handler : Handler M) (rpc : Rpc) (h : RequestHeader) (r : Rpc)
      (ctx : ServerContext)
      → context_from_headers h.headers ≡ some ctx
      → process_unary_rpc g c text service method handler rpc h ≡ done r
      → Answered (handler ctx (decode_request g c text rpc.body)) (answer g r)
  answer-process_unary_rpc service method handler rpc h r ctx e d =
      let (ctx', e', same) = process_unary_rpc-done service method handler rpc h r d in
      let one : ctx' ≡ ctx = cc in
      subst (λ x. Answered (handler x (decode_request g c text rpc.body)) (answer g r)) one
        (subst (λ x. Answered (handler ctx' (decode_request g c text rpc.body)) (answer g x)) same
          (answer-unary_response _ rpc h _))

  -- If the server answers a unary call, the response carries the id of its request and goes back to
  -- where that came from, by the proxies that it came through, less the last, if there were at least
  -- two. A client's call returns the serialised response where the handler gave one and no error,
  -- and the handler's status where it failed with one that is not OK.
  pub process_unary_rpc-response :
      (service method : Bytes) (handler : Handler M) (rpc : Rpc) (h : RequestHeader) (r : Rpc)
      (ctx : ServerContext)
      → context_from_headers h.headers ≡ some ctx
      → process_unary_rpc g c text service method handler rpc h ≡ done r
      → Routed rpc h r × Answered (handler ctx (decode_request g c text rpc.body)) (answer g r)
  process_unary_rpc-response service method handler rpc h r ctx e d = (
    process_unary_rpc-route service method handler rpc h r d,
    answer-process_unary_rpc service method handler rpc h r ctx e d,
  )
