-- ===== src/Transports/Fifo.antt =====
-- Two ends of channel.go that share a channel: what one writes the other reads, in order.
use goat.Base.{◌≡◌, ◌≢◌, false, Option, none, some, List, [], ◌∷◌, ◌++◌}
use goat.Rpc.{Rpc, Err, Result, ok, err}
use goat.Chan.{Chan, Exec, done, panicked, ◌>>=◌}
use goat.Transports.{Wake, fn_read, fn_write, new_goat_over_channel}

-- A Write at one end or a Read at the other, with the case that its `select` takes.
pub data Use : Type 0 where
  writes : Wake → Rpc → Use
  reads : Wake → Use

-- The channel that the ends share, the Rpcs whose Write reported success, and the ones that Read
-- yielded.
pub record Traffic : Type 0 where
  pub shared : Chan Rpc
  pub sent : List Rpc
  pub received : List Rpc

abbrev idle : Chan Rpc
idle = record { buffer = []; capacity = 0; closed = false }

abbrev sent_by : Rpc → Option Err → List Rpc
sent_by rpc none = rpc ∷ []
sent_by rpc (some e) = []

abbrev received_by : Result Rpc → List Rpc
received_by (ok rpc) = rpc ∷ []
received_by (err e) = []

abbrev pub use_one : Use → Traffic → Exec Traffic
use_one (writes w rpc) t =
    fn_write new_goat_over_channel w rpc (record { in_q = idle; out_q = t.shared }) >>= λ r.
    done (record t { shared = r.0.out_q; sent = t.sent ++ sent_by rpc r.1 })
use_one (reads w) t =
    fn_read new_goat_over_channel w (record { in_q = t.shared; out_q = idle }) >>= λ r.
    done (record t { shared = r.0.in_q; received = t.received ++ received_by r.1 })

abbrev pub use_all : List Use → Traffic → Exec Traffic
use_all [] t = done t
use_all (u ∷ us) t = use_one u t >>= use_all us

-- The Rpcs that were sent are those that were received and those that wait in the channel.
abbrev pub InOrder : Traffic → Type 0
InOrder t = (t.shared.closed ≡ false) × (t.sent ≡ t.received ++ t.shared.buffer)

abbrev Keeps : Exec Traffic → Type 0
Keeps x = (x ≢ panicked) × ((t : Traffic) → x ≡ done t → InOrder t)
