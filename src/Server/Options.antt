-- ===== src/Server/Options.antt =====
-- The options of a server: ServerOption and NewServer in server.go, with the chains of chained.go as
-- options. Interceptors and stats handlers are the caller's.
pub mod Effect
use goat.Base.{Option, none, some, List, [], ◌∷◌, ◌++◌, Bytes}
use goat.Chained.{Handler, Interceptor, chain_interceptor, chain_stream_interceptor}

-- The types of the two kinds of interceptors: what a handler gets, the information on the method, and
-- what it returns.
pub record Kind : Type 1 where
  pub first : Type 0
  pub second : Type 0
  pub info : Type 0
  pub result : Type 0

abbrev pub InterceptorOf : Kind → Type 0
InterceptorOf k = Interceptor k.first k.second k.info k.result

abbrev pub HandlerOf : Kind → Type 0
HandlerOf k = Handler k.first k.second k.info k.result

module _ (U S : Kind) (H : Type 0) where
  pub record ServerSettings : Type 0 where
    pub id : Bytes
    pub unary_interceptor : Option (InterceptorOf U)
    pub stream_interceptor : Option (InterceptorOf S)
    pub stats_handlers : List H

  pub data ServerOption : Type 0 where
    unary_option : InterceptorOf U → ServerOption
    stream_option : InterceptorOf S → ServerOption
    stats_option : H → ServerOption
    chain_unary : List (InterceptorOf U) → ServerOption
    chain_stream : List (InterceptorOf S) → ServerOption

module _ {U S : Kind} {H : Type 0} where
  -- apply
  unfoldable pub apply_server : ServerOption U S H → ServerSettings U S H → ServerSettings U S H
  unfolding chain_interceptor chain_stream_interceptor
  apply_server (unary_option i) s = record s { unary_interceptor = some i }
  apply_server (stream_option i) s = record s { stream_interceptor = some i }
  apply_server (stats_option h) s = record s { stats_handlers = s.stats_handlers ++ h ∷ [] }
  apply_server (chain_unary is) s = record s {
    unary_interceptor = some (chain_interceptor U.first U.second U.info U.result is);
  }
  apply_server (chain_stream is) s = record s {
    stream_interceptor = some (chain_stream_interceptor S.first S.second S.info S.result is);
  }

  abbrev pub apply_servers : List (ServerOption U S H) → ServerSettings U S H → ServerSettings U S H
  apply_servers [] s = s
  apply_servers (o ∷ os) s = apply_servers os (apply_server o s)

  -- NewServer
  unfoldable pub configure_server : Bytes → List (ServerOption U S H) → ServerSettings U S H
  unfolding apply_server
  configure_server id opts =
      apply_servers opts (record {
        id = id;
        unary_interceptor = none;
        stream_interceptor = none;
        stats_handlers = [];
      })

-- The choice of runStream, and of the generated code for a unary call: the interceptor around the
-- handler, or the handler.
unfoldable pub intercept_with :
    {k : Kind} → Option (InterceptorOf k) → k.info → HandlerOf k → HandlerOf k
intercept_with none info handler a b = handler a b
intercept_with (some i) info handler a b = i a b info handler
