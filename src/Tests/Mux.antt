-- ===== src/Tests/Mux.antt =====
-- The multiplexer of internal/client/multiplexer.go.
use goat.Base.{
  false, ℕ, ◌≤◌, ◌≡◌, ◌≢◌, ◌⊎◌, refl, true, none, some, List, [], ◌∷◌, arith, ℕ_eq, lookup, insert,
  length, codes,
}
use goat.Rpc.{Rpc, eof, ok, err}
use goat.Chan.{done, blocked, panicked, send, receive, update}
use goat.Client.Mux.{
  Mux, new_mux, register_handler, unregister_handler, close_error, handle_response, receive_at,
}
use goat.Client.Mux.Invariant.{Inv}
use goat.Client.Mux.Delivery.{handle_response-Inv}
use goat.Client.Mux.Steps.{
  Reach, start, after, registers, responds, Reach-ne-panicked, receive_at-id,
}
use goat.Client.Mux.Loop.{Arrival, read_loop, Loops, read_loop-Loops}

-- A multiplexer with one call waiting, under id 1.
abbrev waiting : Mux
waiting = record {
  handlers = (1, 0) ∷ [];
  chans = λ a. record { buffer = []; capacity = 1; closed = false };
  next_chan = 1;
  stream_counter = 1;
  r_err = none;
  cancelled = false;
}

waiting-Inv : Inv waiting
waiting-Inv = record {
  served = (
    record {
      allocated = omega arith;
      is_open = refl;
      capacity = refl;
      fits = omega arith;
      routed = tt;
    },
    tt,
  );
  distinct = (tt, tt);
}

abbrev reply : Rpc
reply = record {
  id = 1;
  header = none;
  status = none;
  body = some (record { body_data = some (codes "ok") });
  trailer = none;
  reset = none;
}

abbrev ended : Mux
ended = record waiting {
  handlers = [];
  chans = update waiting.chans 0 (record (waiting.chans 0) { closed = true });
  r_err = some eof;
  cancelled = true;
}

abbrev answered : Mux
answered = record waiting {
  chans = update waiting.chans 0 (record (waiting.chans 0) { buffer = reply ∷ [] });
}

answered_run : handle_response reply waiting ≡ done answered
unfolding handle_response lookup send
answered_run = refl

handle_response-Inv_example :
    ((lookup reply.id waiting.handlers ≡ none) × (handle_response reply waiting ≡ done waiting))
    ⊎ ((a : ℕ) × (lookup reply.id waiting.handlers ≡ some a)
        × (1 ≤ length (waiting.chans a).buffer)
        × (handle_response reply waiting ≡ blocked))
    ⊎ ((a : ℕ) × (m' : Mux) × (lookup reply.id waiting.handlers ≡ some a)
        × ((waiting.chans a).buffer ≡ [])
        × (handle_response reply waiting ≡ done m')
        × Inv m'
        × ((m'.chans a).buffer ≡ reply ∷ [])
        × ((b : ℕ) → a ≢ b → m'.chans b ≡ waiting.chans b)
        × (m'.handlers ≡ waiting.handlers))
handle_response-Inv_example = handle_response-Inv reply waiting waiting-Inv

abbrev registered : Mux
registered = register_handler 1 new_mux

abbrev served : Mux
served = record registered {
  chans = update registered.chans 0 (record (registered.chans 0) { buffer = reply ∷ [] });
}

Reach-registered : Reach registered
Reach-registered = after (start refl) (registers 1 refl)

Reach-served : Reach served
unfolding register_handler new_mux handle_response lookup insert send
Reach-served = after Reach-registered (responds reply refl)

Reach-ne-panicked_example :
    (unregister_handler 1 registered ≢ panicked)
    × (handle_response reply registered ≢ panicked)
    × (close_error (some eof) registered ≢ panicked)
Reach-ne-panicked_example = Reach-ne-panicked Reach-registered 1 reply (some eof)

abbrev fetched : Mux
fetched = record served { chans = update served.chans 0 (record (served.chans 0) { buffer = [] }) }

receive_at-id_example : reply.id ≡ 1
unfolding register_handler new_mux lookup insert receive_at receive
receive_at-id_example = receive_at-id Reach-served 1 0 reply fetched refl refl

-- A response, and the end of the transport.
abbrev arrivals : List Arrival
arrivals =
    record { read = ok reply; meanwhile = λ m. m }
    ∷ record { read = err eof; meanwhile = λ m. m }
    ∷ []

read_loop-Loops_example : Loops (read_loop arrivals waiting)
read_loop-Loops_example =
    read_loop-Loops arrivals waiting ((λ m v. v), ((λ m v. v), tt)) waiting-Inv
