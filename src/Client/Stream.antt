-- ===== src/Client/Stream.antt =====
-- internal/client/stream.go: the client's end of one stream, with its read loop.
-- What the transport and the codec answer, and which case of a `select` is taken, are arguments.
-- The deferred function of the read loop closes the channel and marks the stream as done under one
-- lock, so that they are one step here.
pub mod Loop
pub mod Calls
pub mod EndToEnd
pub mod Session
pub mod Events
use goat.Base.{
  ℕ, Bool, true, false, ◌&&◌, Option, none, some, List, [], ◌∷◌, nat_eq, if◌then◌else◌, is_some,
  Bytes, codes,
}
use goat.Rpc.{
  RequestHeader, Body, Trailer, Rpc, plain_header, get_headers, get_code, get_message, get_details,
  get_metadata, Err, canceled, deadline_exceeded, eof, status_err, failure, wrapped, Result, ok,
  err, Codec,
}
use goat.Encoding.Metadata.{Md, to_metadata}
use goat.Grpc.{Grpc}
use goat.Chan.{Exec, done, blocked, panicked}

pub record ClientStream : Type 0 where
  pub id : ℕ
  pub method : Bytes
  pub source_address : Bytes
  pub dest_address : Bytes
  pub header : Option Md
  -- whether `ready` was released
  pub is_ready : Bool
  pub header_err : Option Err
  pub is_done : Bool
  pub r_err : Option Err
  pub trailer : Option Trailer
  -- whether rCh was closed
  pub closed : Bool
  -- whether the context was cancelled and the multiplexer's handler removed
  pub torn_down : Bool

-- NewStream
unfoldable pub new_stream : ℕ → Bytes → Bytes → Bytes → ClientStream
new_stream id method source dest = record {
  id = id;
  method = method;
  source_address = source;
  dest_address = dest;
  header = none;
  is_ready = false;
  header_err = none;
  is_done = false;
  r_err = none;
  trailer = none;
  closed = false;
  torn_down = false;
}

-- errors.Is(err, context.Canceled) or of context.DeadlineExceeded
abbrev is_context_error : Err → Bool
is_context_error canceled = true
is_context_error deadline_exceeded = true
is_context_error eof = false
is_context_error (status_err s) = false
is_context_error (failure t) = false
is_context_error (wrapped t e) = is_context_error e

-- An Rpc of this stream with nothing but its header filled in.
abbrev base_rpc : ClientStream → Rpc
base_rpc cs = record {
  id = cs.id;
  header = some (plain_header cs.method cs.source_address cs.dest_address);
  status = none;
  body = none;
  trailer = none;
  reset = none;
}

-- teardown, which sends a reset if asked for, removes the handler and cancels the context.
unfoldable pub teardown : Bool → ClientStream → ClientStream × List Rpc
teardown send_rst cs = (
  record cs { torn_down = true },
  if send_rst
      then record (base_rpc cs) { reset = some (record { reset_type = codes "RST_STREAM" }) } ∷ []
      else [],
)

-- onReady, which the read loop calls only while `header` is nil.
unfoldable pub on_ready : Option Err → Option Md → ClientStream → ClientStream
on_ready e headers cs = elim cs.header [
  | some md ↦ cs
  | none ↦ record cs { header_err = e; header = headers; is_ready = true }
]

-- What one turn of the read loop does: it goes on, perhaps with a message fetched from rCh, or the
-- loop returns, with these values of `rErr` and `trailer`.
pub data Turn : Type 0 where
  goes_on : ClientStream → Option Body → Turn
  returns : ClientStream → Option Err → Option Trailer → Turn

-- Which case of the loop's `select` is taken: RecvMsg fetches the message, or the context ends.
pub data Hand : Type 0 where
  fetched : Hand
  ends : Err → Hand

pub record Reading : Type 0 where
  pub stream : ClientStream
  pub bodies : List Body
  pub writes : List Rpc
  pub has_ended : Bool

abbrev pub with_body : Option Body → Reading → Reading
with_body none l = l
with_body (some b) l = record l { bodies = b ∷ l.bodies }

-- The deferred function, where `ctx_over` tells whether the context has ended by then.
unfoldable pub end_loop : Bool → ClientStream → Option Err → Option Trailer → Reading
unfolding teardown
end_loop ctx_over cs e t =
    let (cs', writes) =
      teardown ((if is_some t then false else true) && ctx_over) (record cs { closed = true }) in
    record {
      stream = record cs' { is_done = true; r_err = e; trailer = t };
      bodies = [];
      writes = writes;
      has_ended = true;
    }

-- What wakes RecvMsg up.
pub data Wake : Type 0 where
  ctx_ends : Err → Wake
  message : Body → Wake
  channel_closed : Wake

module _ (g : Grpc) where
  open g use {from_error, from_context_error, status_error}

  -- toStatusError
  unfoldable pub to_status_error : Err → Option Err
  to_status_error e =
      if is_context_error e
      then status_error (from_context_error e)
      else status_error (from_error e).0

  -- errorIfDone: whether this is the last Rpc, and the error then.
  unfoldable pub error_if_done : Rpc → Bool × Option Err
  error_if_done rpc = elim rpc.trailer [
    | none ↦ (false, none)
    | some t ↦
        let st = rpc.status in
        (
          true,
          if nat_eq (get_code st) 0
              then some eof
              else status_error (record {
                code = get_code st;
                message = get_message st;
                details = get_details st;
              }),
        )
  ]

  abbrev pub hand_over : ClientStream → Option Body → Hand → Turn
  hand_over cs none hand = goes_on cs none
  hand_over cs (some b) fetched = goes_on cs (some b)
  hand_over cs (some b) (ends e) = returns cs (to_status_error e) none

  -- A turn once the header is known.
  abbrev pub after_header : ClientStream → Rpc → Hand → Turn
  after_header cs rpc hand =
      if (error_if_done rpc).0
      then returns cs (error_if_done rpc).1 rpc.trailer
      else hand_over cs rpc.body hand

  abbrev pub with_header : ClientStream → Rpc → Hand → Option Md → Turn
  with_header cs rpc hand none = returns cs none none
  with_header cs rpc hand (some md) = after_header (on_ready none (some md) cs) rpc hand

  -- One turn, given what the transport read. An error of ToMetadata is returned, but `rErr` stays
  -- nil.
  unfoldable pub turn : ClientStream → Result Rpc → Hand → Turn
  unfolding to_status_error error_if_done on_ready
  turn cs (err e) hand = returns (on_ready (to_status_error e) none cs) (to_status_error e) none
  turn cs (ok rpc) hand = elim cs.header [
    | some md ↦ after_header cs rpc hand
    | none ↦ with_header cs rpc hand (to_metadata (get_headers rpc.header))
  ]

  -- readLoop over what the transport reads; it waits for more where the list ends.
  unfoldable pub read_loop : Bool → ClientStream → List (Result Rpc × Hand) → Reading
  unfolding turn end_loop
  read_loop ctx_over cs [] = record { stream = cs; bodies = []; writes = []; has_ended = false }
  read_loop ctx_over cs ((r, hand) ∷ reads) = elim (turn cs r hand) [
    | goes_on cs' b ↦ with_body b (read_loop ctx_over cs' reads)
    | returns cs' e t ↦ end_loop ctx_over cs' e t
  ]

  module _ {M : Type 0} (c : Codec M) where
    open c use {marshal, unmarshal}

    abbrev decoded : Result M → Option M × Option Err
    decoded (ok m) = (some m, none)
    decoded (err e) = (none, some e)

    -- RecvMsg of a stream that is `cs` when it is called and `later` when it wakes up.
    unfoldable pub recv_msg : ClientStream → Wake → ClientStream → Exec (Option M × Option Err)
    unfolding to_status_error
    recv_msg cs wake later = if cs.is_done then done (none, cs.r_err) else elim wake [
      | ctx_ends e ↦ done (none, to_status_error e)
      | message b ↦ done (decoded (unmarshal (elim b.body_data [ none ↦ [] | some d ↦ d ])))
      | channel_closed ↦ if later.is_done then done (none, later.r_err) else panicked
    ]

    -- SendMsg, where the transport answers with `w`: a failure tears the stream down.
    unfoldable pub send_msg : ClientStream → M → Option Err → ClientStream × List Rpc × Option Err
    unfolding teardown
    send_msg cs m w = if cs.is_done then (cs, [], cs.r_err) else elim (marshal m) [
      | err e ↦ ((teardown false cs).0, [], some e)
      | ok b ↦ (
        (if is_some w then (teardown false cs).0 else cs),
        record (base_rpc cs) { body = some (record { body_data = some b }) } ∷ [],
        w,
      )
    ]

-- CloseSend
unfoldable pub close_send : ClientStream → Rpc
close_send cs = record (base_rpc cs) {
  status = some (record { code = 0; message = codes "OK"; details = [] });
  trailer = some (record { metadata = [] });
}

-- Header, which waits until the stream is ready.
unfoldable pub header : ClientStream → Exec (Option Md × Option Err)
header cs = if cs.is_ready then done (cs.header, cs.header_err) else blocked

abbrev some_or_panic : Option Md → Exec (Option Md)
some_or_panic none = panicked
some_or_panic (some md) = done (some md)

-- Trailer: one without entries reads as nil, one that cannot be decoded panics.
unfoldable pub trailer_md : ClientStream → Exec (Option Md)
trailer_md cs = elim (get_metadata cs.trailer) [
  | [] ↦ done none
  | kv ∷ kvs ↦ some_or_panic (to_metadata (kv ∷ kvs))
]
