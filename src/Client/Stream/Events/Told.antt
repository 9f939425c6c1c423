-- ===== src/Client/Stream/Events/Told.antt =====
-- The read loop of internal/client/stream.go: what it tells stats handlers, by what it leaves.
use goat.Base.{◌≡◌, Bool, true, false, is_some, Option, none, some, List, [], ◌∷◌, ◌++◌, Bytes}
use goat.Rpc.{Rpc, Err, Result, ok, err}
use goat.Encoding.Metadata.{Md}
use goat.Grpc.{Grpc}
use goat.Stats.{Event, in_header, end_rpc}
use goat.Client.Stream.{
  Turn, goes_on, returns, Hand, Reading, with_body, end_loop, to_status_error, read_loop,
}
use goat.Client.Stream.Events.{loop_error, end_events, loop_events}

-- The header that a stream gained.
abbrev header_told : Bytes → Option Md → Option Md → List Event
header_told method none none = []
header_told method none (some md) = in_header method md ∷ []
header_told method (some h) md = []

abbrev end_told : Bool → Option Err → List Event
end_told false e = []
end_told true e = end_rpc false (loop_error e) ∷ []

-- What is told by a read loop that started with the header `hd` and left `l`: the header, if that is
-- new, and the end, if it has ended.
abbrev pub Told : Bytes → Option Md → Reading → List Event → Type 0
Told method hd l es =
    es ≡ header_told method hd l.stream.header ++ end_told l.has_ended l.stream.r_err

-- A header stays.
abbrev pub Stays : Option Md → Reading → Type 0
Stays hd l = (md : Md) → hd ≡ some md → l.stream.header ≡ some md

-- An error that the transport reports is not one of the status OK.
abbrev pub Fails : Grpc → Result Rpc × Hand → Type 0
Fails g (ok rpc, hand) = Unit
Fails g (err e, hand) = is_some (to_status_error g e) ≡ true

module _ (g : Grpc) where
  -- What one turn leaves of the loop, and what is told.
  abbrev Turned : Bytes → Option Md → Bool → List (Result Rpc × Hand) → List Event → Turn → Type 0
  Turned method hd ctx_over reads es t =
      let l : Reading = elim t [
        | goes_on cs' b ↦ with_body b (read_loop g ctx_over cs' reads)
        | returns cs' e tr ↦ end_loop ctx_over cs' e tr
      ] in
      Told method hd l (
        es
        ++ (elim t [ goes_on cs' b ↦ loop_events g cs' reads | returns cs' e tr ↦ end_events e ]))
      × Stays hd l
