-- ===== src/Client/Conn/Events.antt =====
-- What stats handlers are told of a unary call by invoke of client.go, with CallUnaryMethod of
-- internal/client/multiplexer.go.
use goat.Base.{true, false, Option, none, some, List, [], ◌∷◌, ◌++◌, Bytes}
use goat.Rpc.{RequestHeader, KeyValue, Body, Rpc, Err, Result, ok, err, Codec}
use goat.Encoding.Metadata.{Md, to_metadata}
use goat.Grpc.{Grpc}
use goat.Client.Mux.{answer}
use goat.Stats.{
  Event, in_header, out_header, out_payload, in_payload, md_or_empty, StatsHandler, Told,
}
use goat.Stats.Calls.{call_stats, tagged, Wholes, call_stats-Wholes}

-- How CallUnaryMethod ends: with an error before there is a response, or with one.
pub data Outcome : Type 0 where
  no_response : Err → Outcome
  responded : Rpc → Outcome

-- The loop over the stats handlers in CallUnaryMethod, once there is a response. It panics where that
-- has no header.
unfoldable pub response_events : Bytes → Option RequestHeader → List Event
response_events method none = []
response_events method (some h) = in_header method (md_or_empty (to_metadata h.headers)) ∷ []

-- The loop over the stats handlers at the end of invoke, also where the body cannot be decoded. There
-- is no body, and invoke panics before, where the status of the response is OK.
unfoldable pub reply_events : Result (Option Body) → List Event
reply_events (err e) = []
reply_events (ok none) = []
reply_events (ok (some b)) = in_payload ∷ []

module _ (g : Grpc) where
  -- What follows a panic for want of a header is not told.
  abbrev from_response : Bytes → Option RequestHeader → Rpc → List Event
  from_response method none r = []
  from_response method (some h) r = response_events method (some h) ++ reply_events (answer g r)

  abbrev outcome_events : Bytes → Outcome → List Event
  outcome_events method (no_response e) = []
  outcome_events method (responded r) = from_response method r.header r

  -- Between the begin and the end: what follows a message that cannot be serialised is not told.
  unfoldable pub invoke_events : Bytes → List KeyValue → Result Bytes → Outcome → List Event
  unfolding response_events reply_events
  invoke_events method headers (err e) out = []
  invoke_events method headers (ok b) out =
      out_header (md_or_empty (to_metadata headers)) ∷ out_payload ∷ outcome_events method out

  module _ {M : Type 0} (c : Codec M) where
    abbrev data_or_empty : Option Bytes → Bytes
    data_or_empty none = []
    data_or_empty (some d) = d

    abbrev error_of : Result M → Option Err
    error_of (ok m) = none
    error_of (err e) = some e

    abbrev reply_error : Result (Option Body) → Option Err
    reply_error (err e) = some e
    reply_error (ok none) = none
    reply_error (ok (some b)) = error_of (c.unmarshal (data_or_empty b.body_data))

    abbrev header_error : Option RequestHeader → Rpc → Option Err
    header_error none r = none
    header_error (some h) r = reply_error (answer g r)

    -- The variable `err` of invoke when it ends: there is none where it panics.
    unfoldable pub invoke_error : Result Bytes → Outcome → Option Err
    invoke_error (err e) out = some e
    invoke_error (ok b) (no_response e) = some e
    invoke_error (ok b) (responded r) = header_error r.header r

    module _ (C : Type 0) (incoming : C → Option Md) where
      -- All that the handlers are told of the call, where `sent` is the message serialised.
      unfoldable pub invoke_stats :
          List (StatsHandler C)
          → Bytes
          → List KeyValue
          → Result Bytes
          → Outcome
          → C
          → List (List (Told C))
      unfolding invoke_events invoke_error
      invoke_stats shs method headers sent out ctx =
          call_stats C incoming shs true method false false (invoke_events method headers sent out)
            (invoke_error sent out) ctx

      -- Of a unary call each stats handler of a client is told its begin, what invoke_events says,
      -- and its end, with the error of invoke unless that is none or io.EOF.
      pub invoke_stats-Wholes :
          (shs : List (StatsHandler C)) (method : Bytes) (headers : List KeyValue)
          (sent : Result Bytes) (out : Outcome) (ctx : C)
          → Wholes C true method false false
              (md_or_empty (incoming ctx))
              (invoke_events method headers sent out)
              (invoke_error sent out)
              ctx
              (tagged C shs method ctx)
              shs
              (invoke_stats shs method headers sent out ctx)
      unfolding invoke_stats
      invoke_stats-Wholes shs method headers sent out ctx =
          call_stats-Wholes C incoming shs true method false false
            (invoke_events method headers sent out) (invoke_error sent out) ctx
