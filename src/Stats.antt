-- ===== src/Stats.antt =====
-- StatsStartServerRPC and StatsEndRPC of internal/util.go: what a stats handler is told of a call.
-- A context belongs to package context: `C` stands for it, and `incoming` for
-- metadata.FromIncomingContext. Times and lengths are left out of an event.
pub mod Calls
use goat.Base.{
  ◌≡◌, refl, Bool, true, false, Option, none, some, List, [], ◌∷◌, All, if◌then◌else◌, Bytes,
}
use goat.Rpc.{Err, canceled, deadline_exceeded, eof, status_err, failure, wrapped}
use goat.Encoding.Metadata.{Md}

-- stats.Begin and stats.End (with Client, and the kind of stream or the error), stats.InHeader and
-- its neighbours.
pub data Event : Type 0 where
  begin_rpc : Bool → Bool → Bool → Event
  in_header : Bytes → Md → Event
  out_header out_trailer : Md → Event
  out_payload in_payload : Event
  end_rpc : Bool → Option Err → Event

-- What a stats handler is told of a connection: TagConn, stats.ConnBegin and stats.ConnEnd, with
-- Client.
pub data ConnEvent : Type 0 where
  tag_conn : ConnEvent
  conn_begin conn_end : Bool → ConnEvent

-- errors.Is(err, io.EOF)
abbrev pub is_eof : Err → Bool
is_eof eof = true
is_eof (wrapped m e) = is_eof e
is_eof canceled = false
is_eof deadline_exceeded = false
is_eof (status_err s) = false
is_eof (failure m) = false

-- The error of stats.End.
unfoldable pub end_error : Option Err → Option Err
end_error none = none
end_error (some e) = if is_eof e then none else some e

abbrev pub md_or_empty : Option Md → Md
md_or_empty none = []
md_or_empty (some md) = md

module _ (C : Type 0) where
  pub record StatsHandler : Type 0 where
    pub tag_rpc : C → Bytes → C

  -- One HandleRPC.
  pub record Told : Type 0 where
    pub context : C
    pub event : Event

  -- What each handler is told, in the order of the handlers, and the context that is left.
  pub record Started : Type 0 where
    pub context : C
    pub batches : List (List Told)

  unfoldable pub start_each : List StatsHandler → Bool → Bytes → Bool → Bool → Md → C → Started
  start_each [] client method cs ss md ctx = record { context = ctx; batches = [] }
  start_each (sh ∷ shs) client method cs ss md ctx =
      let tagged = sh.tag_rpc ctx method in
      let rest = start_each shs client method cs ss md tagged in
      record {
        context = rest.context;
        batches =
            (record { context = tagged; event = begin_rpc client cs ss }
              ∷ (if client
                  then []
                  else record { context = tagged; event = in_header method md } ∷ []))
            ∷ rest.batches;
      }

  -- StatsStartServerRPC
  unfoldable pub stats_start_server_rpc :
      (C → Option Md) → List StatsHandler → Bool → Bytes → Bool → Bool → C → Started
  unfolding start_each
  stats_start_server_rpc incoming [] client method cs ss ctx = record {
    context = ctx;
    batches = [];
  }
  stats_start_server_rpc incoming (sh ∷ shs) client method cs ss ctx =
      start_each (sh ∷ shs) client method cs ss (md_or_empty (incoming ctx)) ctx

  -- StatsEndRPC
  unfoldable pub stats_end_rpc : List StatsHandler → Bool → Option Err → C → List (List Told)
  unfolding end_error
  stats_end_rpc [] client e ctx = []
  stats_end_rpc (sh ∷ shs) client e ctx =
      (record { context = ctx; event = end_rpc client (end_error e) } ∷ [])
      ∷ stats_end_rpc shs client e ctx
