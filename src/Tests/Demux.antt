-- ===== src/Tests/Demux.antt =====
-- The connections of demux.go, told apart by the method of an Rpc.
use goat.Base.{◌≡◌, ◌↔◌, true, Option, none, some, List, [], ◌∷◌, Bytes, codes}
use goat.Rpc.{RequestHeader, plain_header, Rpc}
use goat.Chan.{done, panicked}
use goat.Demux.Race.{reads_amid, run_amid, disturbed, run_amid-panicked_iff}
use goat.Demux.{Demux, new_demux, Event, reads, cancels, handed_to, run, since, run-handed_to}

abbrev request : Bytes → Rpc
request method = record {
  id = 7;
  header = some (plain_header method (codes "cli") (codes "srv"));
  status = none;
  body = none;
  trailer = none;
  reset = none;
}

abbrev method_of : Option RequestHeader → Bytes
method_of none = []
method_of (some h) = h.method

abbrev events : List Event
events =
    reads (request (codes "/s/a"))
    ∷ reads (request (codes "/s/b"))
    ∷ cancels (codes "/s/a")
    ∷ reads (request (codes "/s/a"))
    ∷ []

run-handed_to_example :
    (d : Demux) × (run (λ r. method_of r.header) events new_demux ≡ done d)
    × ((id : Bytes)
        → handed_to id d ≡ since (λ r. method_of r.header) id (handed_to id new_demux) events)
run-handed_to_example = run-handed_to (λ r. method_of r.header) events new_demux

run_amid-panicked_iff_example :
    (run_amid
        (λ r. method_of r.header)
        (reads_amid (request (codes "/s/a")) (codes "/s/b" ∷ codes "/s/a" ∷ []) ∷ [])
        new_demux
      ≡ panicked)
    ↔ (disturbed
          (λ r. method_of r.header)
          (reads_amid (request (codes "/s/a")) (codes "/s/b" ∷ codes "/s/a" ∷ []) ∷ [])
        ≡ true)
run_amid-panicked_iff_example =
    run_amid-panicked_iff (λ r. method_of r.header)
      (reads_amid (request (codes "/s/a")) (codes "/s/b" ∷ codes "/s/a" ∷ []) ∷ []) new_demux
