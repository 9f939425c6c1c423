-- ===== src/Server/Options/Effect.antt =====
-- The interceptors and stats handlers of a server of server.go, against what its options ask for.
use goat.Base.{
  ◌≡◌, refl, sym, ◌∙◌, Option, none, some, List, [], ◌∷◌, ◌++◌, append_assoc, append-nil, Bytes,
}
use goat.Chan.{panicked}
use goat.Chained.{
  nested, chain_interceptor, chain_stream_interceptor, chain_interceptor-nested,
  chain_stream_interceptor-chain,
}
use goat.Server.Options.{
  Kind, InterceptorOf, HandlerOf, ServerSettings, ServerOption, unary_option, stream_option,
  stats_option, chain_unary, chain_stream, apply_server, apply_servers, configure_server,
  intercept_with,
}

-- Some interceptors, each around the next, and the last one around the handler.
abbrev pub expected :
    {k : Kind} → Option (List (InterceptorOf k)) → k.info → HandlerOf k → HandlerOf k
expected none info handler a b = handler a b
expected (some []) info handler a b = panicked
expected {k} (some (i ∷ is)) info handler a b =
    nested k.first k.second k.info k.result (i ∷ is) info handler a b

-- An interceptor does what a chain of some does.
abbrev pub Chains : {k : Kind} → Option (InterceptorOf k) → Option (List (InterceptorOf k)) → Type 0
Chains {k} i is =
    (info : k.info) (handler : HandlerOf k) (a : k.first) (b : k.second)
    → intercept_with i info handler a b ≡ expected is info handler a b

Chains-one : {k : Kind} (i : InterceptorOf k) → Chains (some i) (some (i ∷ []))
unfolding intercept_with
Chains-one i info handler a b = refl

Chains-none : {k : Kind} → Chains {k = k} none none
unfolding intercept_with
Chains-none info handler a b = refl

Chains-chain :
    {k : Kind} (is : List (InterceptorOf k))
    → Chains (some (chain_interceptor k.first k.second k.info k.result is)) (some is)
unfolding intercept_with
Chains-chain {k} [] info handler a b =
    chain_interceptor-nested k.first k.second k.info k.result [] a b info handler
Chains-chain {k} (i ∷ is) info handler a b =
    chain_interceptor-nested k.first k.second k.info k.result (i ∷ is) a b info handler

Chains-chain_stream :
    {k : Kind} (is : List (InterceptorOf k))
    → Chains (some (chain_stream_interceptor k.first k.second k.info k.result is)) (some is)
unfolding intercept_with
Chains-chain_stream {k} is info handler a b =
    chain_stream_interceptor-chain k.first k.second k.info k.result is a b info handler
    ∙ Chains-chain is info handler a b

module _ {U S : Kind} {H : Type 0} where
  -- The interceptors of the last option that sets some, and the stats handlers of all options.
  abbrev pub last_unary :
      Option (List (InterceptorOf U)) → List (ServerOption U S H) → Option (List (InterceptorOf U))
  last_unary is [] = is
  last_unary is (unary_option i ∷ os) = last_unary (some (i ∷ [])) os
  last_unary is (stream_option i ∷ os) = last_unary is os
  last_unary is (stats_option h ∷ os) = last_unary is os
  last_unary is (chain_unary js ∷ os) = last_unary (some js) os
  last_unary is (chain_stream js ∷ os) = last_unary is os

  abbrev pub last_stream :
      Option (List (InterceptorOf S)) → List (ServerOption U S H) → Option (List (InterceptorOf S))
  last_stream is [] = is
  last_stream is (unary_option i ∷ os) = last_stream is os
  last_stream is (stream_option i ∷ os) = last_stream (some (i ∷ [])) os
  last_stream is (stats_option h ∷ os) = last_stream is os
  last_stream is (chain_unary js ∷ os) = last_stream is os
  last_stream is (chain_stream js ∷ os) = last_stream (some js) os

  abbrev pub stats_of : List (ServerOption U S H) → List H
  stats_of [] = []
  stats_of (unary_option i ∷ os) = stats_of os
  stats_of (stream_option i ∷ os) = stats_of os
  stats_of (stats_option h ∷ os) = h ∷ stats_of os
  stats_of (chain_unary js ∷ os) = stats_of os
  stats_of (chain_stream js ∷ os) = stats_of os

  abbrev Effect :
      List (ServerOption U S H)
      → Option (List (InterceptorOf U))
      → Option (List (InterceptorOf S))
      → List H
      → ServerSettings U S H
      → Type 0
  Effect os u st hs s =
      Chains s.unary_interceptor (last_unary u os)
      × Chains s.stream_interceptor (last_stream st os)
      × (s.stats_handlers ≡ hs ++ stats_of os)

  apply_servers-Effect :
      (os : List (ServerOption U S H)) (u : Option (List (InterceptorOf U)))
      (st : Option (List (InterceptorOf S))) (s : ServerSettings U S H)
      → Chains s.unary_interceptor u
      → Chains s.stream_interceptor st
      → Effect os u st s.stats_handlers (apply_servers os s)
  unfolding apply_server
  apply_servers-Effect [] u st s a b = (a, b, sym (append-nil s.stats_handlers))
  apply_servers-Effect (unary_option i ∷ os) u st s a b =
      apply_servers-Effect os (some (i ∷ [])) st _ (Chains-one i) b
  apply_servers-Effect (stream_option i ∷ os) u st s a b =
      apply_servers-Effect os u (some (i ∷ [])) _ a (Chains-one i)
  apply_servers-Effect (chain_unary is ∷ os) u st s a b =
      apply_servers-Effect os (some is) st _ (Chains-chain is) b
  apply_servers-Effect (chain_stream is ∷ os) u st s a b =
      apply_servers-Effect os u (some is) _ a (Chains-chain_stream is)
  apply_servers-Effect (stats_option h ∷ os) u st s a b =
      let (a', b', hs) =
        apply_servers-Effect os u st (record s { stats_handlers = s.stats_handlers ++ h ∷ [] }) a
          b in
      (a', b', hs ∙ append_assoc s.stats_handlers (h ∷ []) (stats_of os))

  -- The interceptors of a new server, for unary calls and for streams, do what the last option of
  -- their kind asks for: a single one is called around the handler, the interceptors of a chain each
  -- around the next, an empty chain panics, and without such an option the handler is called. Its
  -- stats handlers are those of all options, in order.
  pub configure_server-Effect :
      (id : Bytes) (opts : List (ServerOption U S H))
      → let s = configure_server id opts in
        Chains s.unary_interceptor (last_unary none opts)
        × Chains s.stream_interceptor (last_stream none opts)
        × (s.stats_handlers ≡ stats_of opts)
  unfolding configure_server
  configure_server-Effect id opts =
      apply_servers-Effect opts none none
        (record {
          id = id;
          unary_interceptor = none;
          stream_interceptor = none;
          stats_handlers = [];
        })
        Chains-none Chains-none
