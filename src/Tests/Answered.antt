-- ===== src/Tests/Answered.antt =====
-- A unary call from the read loop of server.go to the writer.
use mathlib.Core.List.{Perm, Mem}
use goat.Base.{
  ℕ, ◌≡◌, refl, false, Option, none, some, List, [], ◌∷◌, Bytes, codes, lookup, insert, Bytes_eq,
}
use goat.Rpc.{plain_header, Rpc, Err, Result, ok, err, Codec}
use goat.Grpc.{plain_grpc}
use goat.Chan.{done, send, receive, update}
use goat.Client.Mux.{Mux, new_mux, register_handler, handle_response, receive_at}
use goat.Client.Mux.Steps.{Reach, start, after, registers, responds}
use goat.Client.Conn.Served.{receive_at-answer_args}
use goat.Encoding.Method.{
  parse_raw_method, split_method, last_slash, strip_slash, take, drop, full_method,
}
use goat.Encoding.Timeout.{context_from_headers}
use goat.Encoding.Metadata.{to_metadata}
use goat.Server.Registry.{ServiceDesc, Server, service_info, dispatch}
use goat.Server.Streams.{queues}
use goat.Server.Unary.{Handled, Handler, unary_response, process_unary_rpc}
use goat.Server.Serve.{
  UnaryRpcArgs, Event, turns, Loop, goes_on, serve, step, serve_turn, new_handler,
}
use goat.Server.Serve.Handed.{asked}
use goat.Server.Serve.Workers.{
  Pool, PoolEvent, submits, finishes, new_pool, run_pool, pool_step, submit, finish, hand_to_writer,
  answer_args,
}
use goat.Server.Serve.Answered.{AllRespond, serve-answered}

abbrev bytes_codec : Codec Bytes
bytes_codec = record { marshal = λ b. ok b; unmarshal = λ b. ok b }

abbrev no_text : Err → Bytes
no_text e = []

abbrev echoed : Result (Option Bytes) → Handled Bytes
echoed (ok m) = record { response = m; app_error = none; calls = [] }
echoed (err e) = record { response = none; app_error = some e; calls = [] }

abbrev handler : Handler Bytes
handler ctx r = echoed r

abbrev desc : ServiceDesc (Handler Bytes) ℕ
desc = record {
  service_name = codes "s";
  methods = record { method_name = codes "echo"; handler = handler } ∷ [];
  streams = [];
}

abbrev server : Server (Handler Bytes) ℕ
server = record {
  id = codes "srv";
  services = (codes "s", service_info (Handler Bytes) ℕ desc) ∷ [];
}

abbrev request : Rpc
request = record {
  id = 8;
  header = some (plain_header (codes "/s/echo") (codes "cli") (codes "srv"));
  status = none;
  body = some (record { body_data = some (codes "hi") });
  trailer = none;
  reset = none;
}

abbrev args : UnaryRpcArgs (Handler Bytes) ℕ
args = record {
  info = service_info (Handler Bytes) ℕ desc;
  md = record { method_name = codes "echo"; handler = handler };
  rpc = request;
}

abbrev events : List Event
events = turns (record { read = ok request; write = none; choice = queues }) ∷ []

abbrev after_events : Loop (Handler Bytes) ℕ
after_events = record { streams = []; handed = args ∷ []; started = []; resets = [] }

events_run :
    serve (Handler Bytes) ℕ server events (new_handler (Handler Bytes) ℕ)
    ≡ done (goes_on after_events)
unfolding serve new_handler step serve_turn dispatch parse_raw_method service_info lookup insert
    split_method last_slash strip_slash take drop
events_run = refl

abbrev response : Rpc
response =
    unary_response plain_grpc bytes_codec no_text (full_method (codes "s") (codes "echo")) request
      (plain_header (codes "/s/echo") (codes "cli") (codes "srv")) (echoed (ok (some (codes "hi"))))

abbrev pool_events : List (PoolEvent (UnaryRpcArgs (Handler Bytes) ℕ))
pool_events = submits args ∷ finishes 0 ∷ []

abbrev after_pool : Pool (UnaryRpcArgs (Handler Bytes) ℕ)
after_pool = record { busy = []; written = response ∷ []; stopped = false }

pool_run :
    run_pool (answer_args plain_grpc bytes_codec no_text) pool_events new_pool ≡ done after_pool
unfolding run_pool new_pool pool_step submit finish hand_to_writer answer_args process_unary_rpc
    context_from_headers to_metadata service_info
pool_run = refl

serve-answered_example :
    (ys : List (UnaryRpcArgs (Handler Bytes) ℕ)) × Perm (asked server events) ys
    × AllRespond plain_grpc bytes_codec no_text ys after_pool.written
serve-answered_example =
    serve-answered plain_grpc bytes_codec no_text server events after_events pool_events after_pool
      events_run refl pool_run refl

-- The client waits for the response to its request, which then is in its channel.
abbrev waiting : Mux
waiting = register_handler 8 new_mux

abbrev delivered : Mux
delivered = record waiting {
  chans = update waiting.chans 0 (record (waiting.chans 0) { buffer = response ∷ [] });
}

Reach-delivered : Reach delivered
unfolding register_handler new_mux handle_response lookup insert send unary_response
Reach-delivered = after (after (start refl) (registers 8 refl)) (responds response refl)

abbrev taken : Mux
taken = record delivered {
  chans = update delivered.chans 0 (record (delivered.chans 0) { buffer = [] });
}

receive_at-answer_args_example :
    (y : UnaryRpcArgs (Handler Bytes) ℕ) × Mem y (asked server events)
    × (y.rpc.id ≡ 8)
    × (answer_args plain_grpc bytes_codec no_text y ≡ done response)
unfolding register_handler new_mux lookup insert receive_at receive
receive_at-answer_args_example =
    receive_at-answer_args plain_grpc bytes_codec no_text Reach-delivered 8 0 response taken server
      events after_events pool_events after_pool 0 refl refl events_run refl pool_run refl
