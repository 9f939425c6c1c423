-- ===== src/Tests/Stats.antt =====
-- What stats handlers are told, with the list of tags as the context.
use goat.Base.{none, List, [], ◌∷◌, ◌++◌, Bytes, Option}
use goat.Encoding.Metadata.{Md}
use goat.Stats.{StatsHandler}

abbrev tags : Bytes → StatsHandler (List Bytes)
tags t = record { tag_rpc = λ ctx method. ctx ++ t ∷ method ∷ [] }

abbrev incoming : List Bytes → Option Md
incoming ctx = none
