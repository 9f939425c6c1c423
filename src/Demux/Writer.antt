-- ===== src/Demux/Writer.antt =====
-- The goroutine that newConnLocked of demux.go starts for a connection: it passes what the connection
-- writes on to the transport.
use goat.Base.{◌≡◌, refl, ap, Option, none, some, List, [], ◌∷◌, ◌++◌}
use goat.Rpc.{Rpc, Err}

-- What ends a `select` of the goroutine: an Rpc on `w`, with the transport's answer to its write,
-- `w` closed by Cancel, or the end of the context.
pub data WriteWake : Type 0 where
  hands : Rpc → Option Err → WriteWake
  w_closed context_ends : WriteWake

abbrev next_write : Rpc → Option Err → List Rpc → List Rpc
next_write rpc none rest = rpc ∷ rest
next_write rpc (some e) rest = rpc ∷ []

-- What the transport is given to write.
unfoldable pub conn_writer : List WriteWake → List Rpc
conn_writer [] = []
conn_writer (hands rpc e ∷ ws) = let rest = conn_writer ws in next_write rpc e rest
conn_writer (w_closed ∷ ws) = []
conn_writer (context_ends ∷ ws) = []

abbrev pub all_handed : List WriteWake → List Rpc
all_handed [] = []
all_handed (hands rpc e ∷ ws) = rpc ∷ all_handed ws
all_handed (w_closed ∷ ws) = all_handed ws
all_handed (context_ends ∷ ws) = all_handed ws

-- No write fails, and the connection goes on.
abbrev GoesOn : WriteWake → Type 0
GoesOn (hands rpc none) = Unit
GoesOn (hands rpc (some e)) = ⊥
GoesOn w_closed = ⊥
GoesOn context_ends = ⊥

abbrev pub AllGoOn : List WriteWake → Type 0
AllGoOn [] = Unit
AllGoOn (w ∷ ws) = GoesOn w × AllGoOn ws

next_write-prefix :
    (rpc : Rpc) (e : Option Err) (rest lost all_ : List Rpc)
    → all_ ≡ rest ++ lost
    → (lost' : List Rpc) × (rpc ∷ all_ ≡ next_write rpc e rest ++ lost')
next_write-prefix rpc none rest lost all_ h = (lost, ap (λ x. rpc ∷ x) h)
next_write-prefix rpc (some e) rest lost all_ h = (all_, refl)

-- The transport is given a connection's Rpcs in order, each once, up to some point.
pub conn_writer-prefix :
    (ws : List WriteWake) → (lost : List Rpc) × (all_handed ws ≡ conn_writer ws ++ lost)
unfolding conn_writer
conn_writer-prefix [] = ([], refl)
conn_writer-prefix (hands rpc e ∷ ws) =
    let (lost, h) = conn_writer-prefix ws in
    next_write-prefix rpc e (conn_writer ws) lost (all_handed ws) h
conn_writer-prefix (w_closed ∷ ws) = (all_handed ws, refl)
conn_writer-prefix (context_ends ∷ ws) = (all_handed ws, refl)

-- It is given all of them while no write fails and the connection goes on.
pub conn_writer-all : (ws : List WriteWake) → AllGoOn ws → conn_writer ws ≡ all_handed ws
unfolding conn_writer
conn_writer-all [] h = refl
conn_writer-all (hands rpc none ∷ ws) (h, hs) = ap (λ x. rpc ∷ x) (conn_writer-all ws hs)
conn_writer-all (hands rpc (some e) ∷ ws) (h, hs) = absurd h
conn_writer-all (w_closed ∷ ws) (h, hs) = absurd h
conn_writer-all (context_ends ∷ ws) (h, hs) = absurd h
