-- ===== src/Client/Dial/Options.antt =====
-- The options of a client's connection (dialoption.go and client.go), against what they ask for.
use goat.Base.{
  ◌≡◌, ◌↔◌, ◌⊎◌, refl, sym, ap, ◌∙◌, true, false, Option, none, some, List, [], ◌∷◌, ◌++◌,
  append_assoc, append-nil, Bytes, Bool-cases, inl, inr,
}
use goat.Rpc.{Result}
use goat.Chan.{Exec, panicked}
use goat.Client.Mux.{Mux}
use goat.Client.Dial.{
  CallOption, static_method, other_option, supported, UnaryInterceptor, StreamInterceptor, Dialled,
  DialOption, with_unary_interceptor, with_stream_interceptor, with_stats_handler, apply_dial,
  apply_dials, begin_each, end_each, new_client_conn, close_conn, as_invoker, invoke_by,
  invoke_conn, stream_by, stream_conn,
}

-- No call option, or one StaticMethodCallOption.
abbrev pub Static : List CallOption → Type 0
Static [] = Unit
Static (static_method ∷ []) = Unit
Static (other_option ∷ []) = ⊥
Static (o ∷ p ∷ os) = ⊥

supported-Static : (os : List CallOption) → (supported os ≡ true) ↔ Static os
unfolding supported
supported-Static [] = ((λ e. tt), λ e. refl)
supported-Static (static_method ∷ []) = ((λ e. tt), λ e. refl)
supported-Static (other_option ∷ []) = ((λ e. cc), λ e. absurd e)
supported-Static (o ∷ p ∷ os) = ((λ e. cc), λ e. absurd e)

module _ {M T H : Type 0} where
  -- The interceptor of the last option that sets one, and the stats handlers of all options.
  abbrev pub last_unary :
      Option (UnaryInterceptor M T) → List (DialOption M T H) → Option (UnaryInterceptor M T)
  last_unary i [] = i
  last_unary i (with_unary_interceptor j ∷ os) = last_unary (some j) os
  last_unary i (with_stream_interceptor j ∷ os) = last_unary i os
  last_unary i (with_stats_handler h ∷ os) = last_unary i os

  abbrev pub last_stream :
      Option (StreamInterceptor M T) → List (DialOption M T H) → Option (StreamInterceptor M T)
  last_stream i [] = i
  last_stream i (with_unary_interceptor j ∷ os) = last_stream i os
  last_stream i (with_stream_interceptor j ∷ os) = last_stream (some j) os
  last_stream i (with_stats_handler h ∷ os) = last_stream i os

  abbrev pub handlers_of : List (DialOption M T H) → List H
  handlers_of [] = []
  handlers_of (with_unary_interceptor j ∷ os) = handlers_of os
  handlers_of (with_stream_interceptor j ∷ os) = handlers_of os
  handlers_of (with_stats_handler h ∷ os) = h ∷ handlers_of os

  abbrev Applied : Dialled M T H → List (DialOption M T H) → Dialled M T H → Type 0
  Applied c os c' =
      (c'.unary_interceptor ≡ last_unary c.unary_interceptor os)
      × (c'.stream_interceptor ≡ last_stream c.stream_interceptor os)
      × (c'.stats_handlers ≡ c.stats_handlers ++ handlers_of os)

  apply_dials-Applied :
      (os : List (DialOption M T H)) (c : Dialled M T H) → Applied c os (apply_dials os c)
  unfolding apply_dials apply_dial
  apply_dials-Applied [] c = (refl, refl, sym (append-nil c.stats_handlers))
  apply_dials-Applied (with_unary_interceptor i ∷ os) c =
      apply_dials-Applied os (record c { unary_interceptor = some i })
  apply_dials-Applied (with_stream_interceptor i ∷ os) c =
      apply_dials-Applied os (record c { stream_interceptor = some i })
  apply_dials-Applied (with_stats_handler h ∷ os) c =
      let (u, s, hs) =
        apply_dials-Applied os (record c { stats_handlers = c.stats_handlers ++ h ∷ [] }) in
      (u, s, hs ∙ append_assoc c.stats_handlers (h ∷ []) (handlers_of os))

  module _ (call : Bytes → M → Mux → Exec (Mux × Result M))
      (open_ : Bytes → Mux → Exec (Mux × Result T)) where
    -- Invoke and NewStream of a new connection go through the interceptor that the last option set,
    -- if there is one, around the call itself. The call itself goes ahead with at most one option
    -- that is a StaticMethodCallOption, and panics with any others. The stats handlers of all
    -- options are told, in order, that the connection begins and, at Close, that it ends.
    pub new_client_conn-options :
        (source dest : Bytes) (opts : List (DialOption M T H))
        → let (c, events) = new_client_conn source dest opts in
          ((method : Bytes) (args : M) (os : List CallOption) (m : Mux)
            → invoke_conn call open_ c method args os m
              ≡ invoke_by call open_ (last_unary none opts) method args os m)
          × ((method : Bytes) (os : List CallOption) (m : Mux)
              → stream_conn call open_ c method os m
                ≡ stream_by call open_ (last_stream none opts) method os m)
          × ((method : Bytes) (args : M) (os : List CallOption) (m : Mux)
              → (Static os × (as_invoker call open_ method args os m ≡ call method args m))
                ⊎ ((Static os → ⊥) × (as_invoker call open_ method args os m ≡ panicked)))
          × (events ≡ begin_each (handlers_of opts))
          × (close_conn c ≡ end_each (handlers_of opts))
    unfolding new_client_conn close_conn invoke_conn stream_conn as_invoker
    new_client_conn-options source dest opts =
        let start : Dialled M T H = record {
          source_address = source;
          dest_address = dest;
          unary_interceptor = none;
          stream_interceptor = none;
          stats_handlers = [];
        } in
        let (u, s, hs) = apply_dials-Applied opts start in
        (
          (λ method args os m. ap (λ i. invoke_by call open_ i method args os m) u),
          (λ method os m. ap (λ i. stream_by call open_ i method os m) s),
          (λ method args os m. elim (Bool-cases (supported os)) [
            | inl y ↦ inl ((supported-Static os).0 y, rw y refl)
            | inr n ↦ inr (
              (λ ok_. let e : false ≡ true = rw n at ((supported-Static os).1 ok_) in cc),
              rw n refl,
            )
          ]),
          ap begin_each hs,
          ap end_each hs,
        )
