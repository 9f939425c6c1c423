-- ===== src/Tests/Serve.antt =====
-- The read loop and the workers of server.go.
use goat.Base.{
  ℕ, ◌≡◌, refl, true, false, Option, none, some, List, [], ◌∷◌, ◌++◌, Bytes, codes, lookup, insert,
  ℕ_eq, Bytes_eq,
}
use goat.Rpc.{plain_header, Rpc, eof, Result, ok, err}
use goat.Chan.{Exec, done, make, receive, send}
use goat.Encoding.Method.{parse_raw_method, split_method, last_slash, strip_slash, take, drop}
use goat.Encoding.Timeout.{context_from_headers}
use goat.Encoding.Metadata.{to_metadata}
use goat.Server.Registry.{MethodDesc, StreamDesc, ServiceDesc, Server, service_info, dispatch}
use goat.Server.Streams.{queues, process_streaming_rpc, to_new_stream, to_stream, is_reset}
use goat.Server.Serve.{Event, turns, fetches, Loop, goes_on, serve, step, serve_turn, fetch}
use goat.Server.Serve.Isolation.{ServesAll, serve-ServesAll}
use goat.Server.Serve.Handed.{asked, serve-handed}
use goat.Server.Serve.Workers.{Pool, PoolEvent, submits, finishes}
use goat.Server.Serve.Workers.Accounts.{Accounts}

-- A server with one service of one unary method and one stream, whose handlers are numbers.
abbrev echo : MethodDesc ℕ ℕ
echo = record { method_name = codes "echo"; handler = 1 }

abbrev watch : StreamDesc ℕ ℕ
watch = record {
  stream_name = codes "watch";
  handler = 2;
  server_streams = true;
  client_streams = true;
}

abbrev desc : ServiceDesc ℕ ℕ
desc = record { service_name = codes "s"; methods = echo ∷ []; streams = watch ∷ [] }

abbrev server : Server ℕ ℕ
server = record { id = codes "srv"; services = (codes "s", service_info ℕ ℕ desc) ∷ [] }

abbrev rpc_of : ℕ → Bytes → Option Bytes → Rpc
rpc_of id method d = record {
  id = id;
  header = some (plain_header method (codes "cli") (codes "srv"));
  status = none;
  body = elim d [ none ↦ none | some b ↦ some (record { body_data = some b }) ];
  trailer = none;
  reset = none;
}

abbrev reads : Result Rpc → Event
reads r = turns (record { read = r; write = none; choice = queues })

abbrev starts_stream : Rpc
starts_stream = rpc_of 7 (codes "/s/watch") none

abbrev first_message : Rpc
first_message = rpc_of 7 (codes "/s/watch") (some (codes "hi"))

abbrev unary_call : Rpc
unary_call = rpc_of 8 (codes "/s/echo") (some (codes "hi"))

-- A stream starts, gets a message and fetches it, and a unary call comes.
abbrev events : List Event
events =
    reads (ok starts_stream) ∷ reads (ok first_message) ∷ fetches 7 ∷ reads (ok unary_call) ∷ []

abbrev fresh : Loop ℕ ℕ
fresh = record { streams = []; handed = []; started = []; resets = [] }

serve-ServesAll_example : ServesAll server events fresh (serve ℕ ℕ server events fresh)
serve-ServesAll_example = serve-ServesAll server events fresh tt

abbrev after_events : Loop ℕ ℕ
after_events = record {
  streams =
      (7, record { ch = record { buffer = []; capacity = 1; closed = false }; cancelled = false })
      ∷ [];
  handed = record { info = service_info ℕ ℕ desc; md = echo; rpc = unary_call } ∷ [];
  started =
      record {
        stream_info = service_info ℕ ℕ desc;
        sd = watch;
        stream_id = 7;
        context = record { incoming = []; timeout = none };
      }
      ∷ [];
  resets = [];
}

events_run : serve ℕ ℕ server events fresh ≡ done (goes_on after_events)
unfolding serve step serve_turn fetch dispatch parse_raw_method process_streaming_rpc to_new_stream
    to_stream is_reset service_info lookup insert context_from_headers to_metadata make send receive
    split_method last_slash strip_slash take drop
events_run = refl

serve-handed_example : after_events.handed ≡ [] ++ asked server events
serve-handed_example = serve-handed server events fresh after_events events_run

abbrev ending : List Event
ending = reads (ok starts_stream) ∷ reads (err eof) ∷ []

abbrev after_ending : Loop ℕ ℕ
after_ending = record after_events { handed = [] }

-- Two calls, of which the second is answered first.
abbrev answer : Rpc → Exec Rpc
answer rpc = done rpc

abbrev pool_events : List (PoolEvent Rpc)
pool_events = submits first_message ∷ submits unary_call ∷ finishes 1 ∷ []

abbrev after_pool : Pool Rpc
after_pool = record { busy = first_message ∷ []; written = unary_call ∷ []; stopped = false }
