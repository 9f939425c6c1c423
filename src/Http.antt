-- ===== src/Http.antt =====
-- http.go: the table of connections over HTTP, with its cleaner. Connections are objects, which the
-- callers keep: the table maps an address to an object's number. Times are whole seconds.
pub mod Table
pub mod Clean
pub mod Race
pub mod Runs
use goat.Base.{
  ℕ, suc, ◌+◌, Bool, true, false, Option, none, some, List, [], ◌∷◌, Map, lookup, insert, delete,
  Bytes, Bytes_eq, codes, ◌==◌, leb, nat_eq, if◌then◌else◌,
}
use goat.Rpc.{RequestHeader, Rpc, Err, failure, Result, ok, err}
use goat.Chan.{Exec, done, panicked, ◌>>=◌}

pub record HttpReadWriter : Type 0 where
  pub write_addr : Bytes
  -- whether readCh was closed
  pub closed : Bool
  pub last_activity : ℕ

pub record GoatOverHttp : Type 0 where
  pub conns : Map Bytes ℕ
  pub objects : ℕ → HttpReadWriter
  pub next_object : ℕ
  pub connection_timeout : ℕ

abbrev pub set_object : ℕ → HttpReadWriter → GoatOverHttp → GoatOverHttp
set_object a c g = record g { objects = λ b. if nat_eq a b then c else g.objects b }

abbrev pub new_object : Bytes → HttpReadWriter
new_object id = record { write_addr = id; closed = false; last_activity = 0 }

-- NewGoatOverHttp
unfoldable pub new_goat_over_http : ℕ → GoatOverHttp
new_goat_over_http timeout = record {
  conns = [];
  objects = λ a. new_object [];
  next_object = 0;
  connection_timeout = timeout;
}

-- retrieve: the connection of an address, and whether it is new.
unfoldable pub retrieve : Bytes → GoatOverHttp → GoatOverHttp × ℕ × Bool
retrieve id g = elim (lookup id g.conns) [
  | some a ↦ (g, a, false)
  | none ↦ (
    record (set_object g.next_object (new_object id) g) {
      conns = insert id g.next_object g.conns;
      next_object = suc g.next_object;
    },
    g.next_object,
    true,
  )
]

-- close(conn.readCh)
unfoldable pub close_conn : ℕ → GoatOverHttp → Exec GoatOverHttp
close_conn a g =
    if (g.objects a).closed
    then panicked
    else done (set_object a (record (g.objects a) { closed = true }) g)

abbrev close_found : Option ℕ → GoatOverHttp → Exec GoatOverHttp
close_found none g = done g
close_found (some a) g = close_conn a g

-- unregisterLocked
unfoldable pub unregister_locked : Bytes → GoatOverHttp → Exec GoatOverHttp
unfolding close_conn
unregister_locked id g = do
  g' ← close_found (lookup id g.conns) g
  done (record g' { conns = delete id g'.conns })

-- `now - lastActivity >= timeout`
unfoldable pub is_stale : ℕ → GoatOverHttp → ℕ → Bool
is_stale now g a = leb (g.connection_timeout + (g.objects a).last_activity) now

abbrev pub clean_found : ℕ → GoatOverHttp → Option ℕ → Exec GoatOverHttp
clean_found now g none = done g
clean_found now g (some a) =
    if is_stale now g a then unregister_locked (g.objects a).write_addr g else done g

-- The loop of connectionCleaner over the table: an entry that is gone when its turn comes is not
-- visited.
unfoldable pub clean_each : ℕ → Map Bytes ℕ → GoatOverHttp → Exec GoatOverHttp
unfolding is_stale unregister_locked
clean_each now [] g = done g
clean_each now ((id, a) ∷ rest) g = do
  g' ← clean_found now g (lookup id g.conns)
  clean_each now rest g'

-- connectionCleaner, one tick at the time `now`.
unfoldable pub connection_cleaner : ℕ → GoatOverHttp → Exec GoatOverHttp
unfolding clean_each
connection_cleaner now g = clean_each now g.conns g

-- bumpActivity
unfoldable pub bump_activity : ℕ → ℕ → GoatOverHttp → GoatOverHttp
bump_activity now a g = set_object a (record (g.objects a) { last_activity = now }) g

-- Read, given the Rpc that ServeHTTP hands over, or none where readCh is closed.
unfoldable pub read : ℕ → ℕ → Option Rpc → GoatOverHttp → GoatOverHttp × Result Rpc
unfolding bump_activity
read now a none g = (g, err (failure (codes "readCh closed")))
read now a (some rpc) g = (bump_activity now a g, ok rpc)

-- How Write fails: before the request is made, or with it, which cancels the connection.
pub data Failed : Type 0 where
  marshals request : Err → Failed

abbrev with_error : Err → Exec GoatOverHttp → Exec (GoatOverHttp × Option Err)
with_error e x = x >>= λ g. done (g, some e)

-- Write
unfoldable pub write : ℕ → ℕ → Option Failed → GoatOverHttp → Exec (GoatOverHttp × Option Err)
unfolding bump_activity unregister_locked
write now a none g = done (bump_activity now a g, none)
write now a (some (marshals e)) g = done (bump_activity now a g, some e)
write now a (some (request e)) g =
    let g' = bump_activity now a g in with_error e (unregister_locked (g'.objects a).write_addr g')

-- What ServeHTTP answers: an error, or it goes on to hand the Rpc to a connection, which is announced
-- if it is new.
pub data Served : Type 0 where
  bad_request : Bytes → Served
  serves : GoatOverHttp → Rpc → ℕ → Bool → Served

module _ (decode : Bytes → Result Rpc) (source_to_address : Bytes → Result Bytes) where
  abbrev pub serve_from : Rpc → GoatOverHttp → Result Bytes → Served
  serve_from rpc g (err e) = bad_request (codes "failed to map source")
  serve_from rpc g (ok id) = let r = retrieve id g in serves r.0 rpc r.1 r.2

  abbrev pub serve_header : Rpc → GoatOverHttp → Option RequestHeader → Served
  serve_header rpc g none = bad_request (codes "missing header/source")
  serve_header rpc g (some h) =
      if h.source == []
      then bad_request (codes "missing header/source")
      else serve_from rpc g (source_to_address h.source)

  abbrev pub serve_rpc : GoatOverHttp → Result Rpc → Served
  serve_rpc g (err e) = bad_request (codes "proto decode")
  serve_rpc g (ok rpc) = serve_header rpc g rpc.header

  -- ServeHTTP up to the send, given the body of the request, which may be missing or fail.
  unfoldable pub serve_http : Option (Result Bytes) → GoatOverHttp → Served
  unfolding retrieve
  serve_http none g = bad_request (codes "missing body")
  serve_http (some (err e)) g = bad_request (codes "body read")
  serve_http (some (ok data_)) g = serve_rpc g (decode data_)

-- `conn.readCh <- &rpc`, without the lock.
unfoldable pub hand_over : ℕ → GoatOverHttp → Exec GoatOverHttp
hand_over a g = if (g.objects a).closed then panicked else done g

-- unregister, which a Write that fails calls.
unfoldable pub unregister : Bytes → GoatOverHttp → Exec GoatOverHttp
unfolding unregister_locked
unregister id g = unregister_locked id g

-- NewConnection
unfoldable pub new_connection : Bytes → GoatOverHttp → GoatOverHttp × ℕ
unfolding retrieve
new_connection destination g = let r = retrieve destination g in (r.0, r.1)

-- The options, with `K` for the kinds of clocks: a duration is in seconds.
pub data GoatOverHttpOption (K : Type 0) : Type 0 where
  with_clock : K → GoatOverHttpOption K
  with_connection_cleanup_interval with_connection_timeout : ℕ → GoatOverHttpOption K

pub record Settings (K : Type 0) : Type 0 where
  pub clock : K
  pub connection_cleanup_interval : ℕ
  pub timeout : ℕ

unfoldable pub apply_option : {K : Type 0} → GoatOverHttpOption K → Settings K → Settings K
apply_option (with_clock k) s = record s { clock = k }
apply_option (with_connection_cleanup_interval i) s = record s { connection_cleanup_interval = i }
apply_option (with_connection_timeout t) s = record s { timeout = t }

abbrev pub apply_options : {K : Type 0} → List (GoatOverHttpOption K) → Settings K → Settings K
apply_options [] s = s
apply_options (o ∷ os) s = apply_options os (apply_option o s)

-- The settings of NewGoatOverHttp: a minute, four minutes, and the real clock.
unfoldable pub configure : {K : Type 0} → K → List (GoatOverHttpOption K) → Settings K
configure real_clock opts =
    apply_options opts
      (record { clock = real_clock; connection_cleanup_interval = 60; timeout = 240 })
