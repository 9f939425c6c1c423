-- ===== src/Server/Unary/Events.antt =====
-- What stats handlers are told of a unary call by processUnaryRpc of server.go.
use goat.Base.{false, Option, none, some, List, [], ◌∷◌, ◌++◌, Bytes}
use goat.Rpc.{Body, Rpc, Err, Result, ok, err, Codec}
use goat.Encoding.Metadata.{Md}
use goat.Encoding.Method.{full_method}
use goat.Grpc.{Grpc}
use goat.Stats.{
  Event, out_header, out_trailer, out_payload, in_payload, md_or_empty, StatsHandler, Told,
}
use goat.Stats.Calls.{call_stats, tagged, Wholes, call_stats-Wholes}
use goat.Server.Transport.{or_empty, new_unary_transport, run}
use goat.Server.Unary.{Handled, decode_request}

module _ (g : Grpc) {M : Type 0} (c : Codec M) (text : Err → Bytes) where
  -- A request with data that can be decoded is told; one without is not.
  abbrev request_events : Result (Option M) → List Event
  request_events (ok (some m)) = in_payload ∷ []
  request_events (ok none) = []
  request_events (err e) = []

  abbrev response_events : Bytes → Handled M → List Event
  response_events name out =
      let sts = run g.join (new_unary_transport name) out.calls in
      out_header (or_empty sts.headers) ∷ out_payload ∷ out_trailer (or_empty sts.trailers) ∷ []

  -- Between the begin and the end: a response is told even where there is none.
  unfoldable pub unary_events : Bytes → Option Body → Handled M → List Event
  unary_events name body out =
      request_events (decode_request g c text body) ++ response_events name out

  module _ (C : Type 0) (incoming : C → Option Md) where
    -- All that the handlers are told of the call.
    unfoldable pub unary_stats :
        List (StatsHandler C) → Bytes → Bytes → Rpc → Handled M → C → List (List (Told C))
    unfolding unary_events
    unary_stats shs service method rpc out ctx =
        let name = full_method service method in
        call_stats C incoming shs false name false false (unary_events name rpc.body out)
          out.app_error ctx

    -- Of a unary call each stats handler is told its begin and its header, the request if it has data
    -- that can be decoded, header, payload and trailer of the response, and its end, with the
    -- handler's error unless that is none or io.EOF.
    pub unary_stats-Wholes :
        (shs : List (StatsHandler C)) (service method : Bytes) (rpc : Rpc) (out : Handled M)
        (ctx : C)
        → let name = full_method service method in
          Wholes C false name false false
            (md_or_empty (incoming ctx))
            (unary_events name rpc.body out)
            out.app_error
            ctx
            (tagged C shs name ctx)
            shs
            (unary_stats shs service method rpc out ctx)
    unfolding unary_stats
    unary_stats-Wholes shs service method rpc out ctx =
        let name = full_method service method in
        call_stats-Wholes C incoming shs false name false false (unary_events name rpc.body out)
          out.app_error ctx
