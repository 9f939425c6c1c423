-- ===== src/Client/Stream/Events.antt =====
-- What stats handlers are told of a stream at a client: by newStream of client.go, and by readLoop,
-- SendMsg, RecvMsg and CloseSend of internal/client/stream.go. All handlers are told the same.
pub mod Told
use goat.Base.{
  ◌≡◌, refl, sym, subst, ◌∙◌, ap, inl, inr, Bool, true, false, Option, none, some, List, [], ◌∷◌,
  ◌++◌, Bool-cases, if◌then◌else◌, is_some, Bytes,
}
use goat.Rpc.{
  KeyValue, Rpc, get_headers, get_metadata, Err, eof, canceled, deadline_exceeded, status_err,
  failure, wrapped, Result, ok, err, Codec, Trailer, Body,
}
use goat.Encoding.Metadata.{Md, to_metadata}
use goat.Grpc.{Grpc}
use goat.Stats.{
  Event, begin_rpc, in_header, out_header, out_trailer, out_payload, in_payload, end_rpc,
  md_or_empty,
}
use goat.Client.Stream.{
  ClientStream, Turn, goes_on, returns, Hand, fetched, ends, teardown, Reading, with_body, end_loop,
  turn, to_status_error, read_loop, on_ready, Wake, ctx_ends, message, channel_closed, close_send,
  after_header, with_header, hand_over, error_if_done,
}

-- The loops over the stats handlers in newStream: it begins, and then ends if the stream cannot be
-- opened.
unfoldable pub open_events : Bool → Bool → List KeyValue → Option Err → List Event
open_events cs ss headers (some e) = begin_rpc true cs ss ∷ end_rpc true (some e) ∷ []
open_events cs ss headers none =
    begin_rpc true cs ss ∷ out_header (md_or_empty (to_metadata headers)) ∷ []

abbrev pub ready_header : Bytes → Option Md → List Event
ready_header method none = []
ready_header method (some md) = in_header method md ∷ []

-- The error of stats.End: that of the read loop, unless it is io.EOF itself.
abbrev pub loop_error : Option Err → Option Err
loop_error none = none
loop_error (some canceled) = some canceled
loop_error (some deadline_exceeded) = some deadline_exceeded
loop_error (some eof) = none
loop_error (some (status_err s)) = some (status_err s)
loop_error (some (failure t)) = some (failure t)
loop_error (some (wrapped t e)) = some (wrapped t e)

-- What the deferred function of readLoop tells; the end is not marked as that of a client.
unfoldable pub end_events : Option Err → List Event
end_events e = end_rpc false (loop_error e) ∷ []

-- CloseSend
unfoldable pub close_events : ClientStream → List Event
unfolding close_send
close_events cs =
    out_trailer (md_or_empty (to_metadata (get_metadata (close_send cs).trailer))) ∷ []

-- What onReady tells of no header, where the error is nil too.
abbrev pub ready_without : Bytes → Option Md → List Event
ready_without method none = in_header method [] ∷ []
ready_without method (some md) = []

module _ (g : Grpc) where
  -- What onReady tells: a header that is the first and can be decoded, or that there is none where the
  -- transport reports the status OK as an error.
  unfoldable pub ready_events : ClientStream → Result Rpc → List Event
  unfolding to_status_error
  ready_events cs (err e) =
      if is_some (to_status_error g e) then [] else ready_without cs.method cs.header
  ready_events cs (ok rpc) = elim cs.header [
    | some md ↦ []
    | none ↦ ready_header cs.method (to_metadata (get_headers rpc.header))
  ]

  -- readLoop with onReady.
  unfoldable pub loop_events : ClientStream → List (Result Rpc × Hand) → List Event
  unfolding ready_events end_events turn
  loop_events cs [] = []
  loop_events cs ((r, hand) ∷ reads) = ready_events cs r ++ (elim (turn g cs r hand) [
    | goes_on cs' b ↦ loop_events cs' reads
    | returns cs' e t ↦ end_events e
  ])

  module _ {M : Type 0} (c : Codec M) where
    abbrev sent : Result Bytes → Option Err → List Event
    sent (err e) w = []
    sent (ok b) (some e) = []
    sent (ok b) none = out_payload ∷ []

    -- SendMsg
    unfoldable pub send_events : ClientStream → M → Option Err → List Event
    send_events cs m w = if cs.is_done then [] else sent (c.marshal m) w

    abbrev read_payload : Result M → List Event
    read_payload (err e) = []
    read_payload (ok m) = in_payload ∷ []

    -- RecvMsg
    unfoldable pub recv_events : ClientStream → Wake → List Event
    recv_events cs wake = if cs.is_done then [] else elim wake [
      | ctx_ends e ↦ []
      | message b ↦ read_payload (c.unmarshal (elim b.body_data [ none ↦ [] | some d ↦ d ]))
      | channel_closed ↦ []
    ]
