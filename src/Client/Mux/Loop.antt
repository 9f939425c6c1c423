-- ===== src/Client/Mux/Loop.antt =====
-- The read loop of internal/client/multiplexer.go from its start in NewRpcMultiplexer to its end.
use goat.Base.{◌≡◌, ◌≢◌, subst, inl, inr, Option, none, some, List, [], ◌∷◌, All}
use goat.Rpc.{Rpc, Err, Result, ok, err}
use goat.Chan.{Exec, done, panicked, ◌>>=◌}
use goat.Client.Mux.{Mux, close_error, handle_response}
use goat.Client.Mux.Invariant.{Inv, close_error-Inv}
use goat.Client.Mux.Delivery.{handle_response-Inv}

-- What the transport reads, and what the rest of the program has done to the multiplexer until then.
pub record Arrival : Type 0 where
  pub read : Result Rpc
  pub meanwhile : Mux → Mux

abbrev ended : Err → Mux → Exec (Mux × Option Err)
ended e m = done (m, some e)

abbrev on_read : (Mux → Exec (Mux × Option Err)) → Mux → Result Rpc → Exec (Mux × Option Err)
on_read rest m (err e) = close_error (some e) m >>= ended e
on_read rest m (ok rpc) = handle_response rpc m >>= rest

-- readLoop and, with its error, closeError. Without an error the loop goes on.
unfoldable pub read_loop : List Arrival → Mux → Exec (Mux × Option Err)
read_loop [] m = done (m, none)
read_loop (a ∷ as_) m = on_read (read_loop as_) (a.meanwhile m) a.read

-- The rest of the program keeps the invariant.
abbrev pub Keeps : Arrival → Type 0
Keeps a = (m : Mux) → Inv m → Inv (a.meanwhile m)

-- How a loop stands that may have ended with an error.
abbrev pub Stands : Mux → Option Err → Type 0
Stands m none = Inv m
Stands m (some e) = Inv m × (m.handlers ≡ []) × (m.r_err ≡ some e)

abbrev pub Loops : Exec (Mux × Option Err) → Type 0
Loops x = (x ≢ panicked) × ((m : Mux) (e : Option Err) → x ≡ done (m, e) → Stands m e)

Loops-done : (m : Mux) (e : Option Err) → Stands m e → Loops (done (m, e))
Loops-done m e s = (
  (λ h. cc),
  λ m' e' h.
      let one : m ≡ m' = cc in
      let two : e ≡ e' = cc in subst (Stands m') two (subst (λ x. Stands x e) one s),
)

Loops-ended : (e : Err) (m : Mux) → Inv m → Loops (close_error (some e) m >>= ended e)
Loops-ended e m v =
    let (m', h, v', empty, kept, _) = close_error-Inv e m v in
    rw h (Loops-done m' (some e) (v', empty, kept))

Loops-response :
    (rpc : Rpc) (m : Mux) (f : Mux → Exec (Mux × Option Err))
    → Inv m
    → ((m' : Mux) → Inv m' → Loops (f m'))
    → Loops (handle_response rpc m >>= f)
Loops-response rpc m f v rest = elim (handle_response-Inv rpc m v) [
  | inl (unknown, e) ↦ rw e (rest m v)
  | inr (inl (a, known, full, e)) ↦ rw e ((λ h. cc), λ m' e' h. cc)
  | inr (inr (a, m', known, room, e, v', _, _, _)) ↦ rw e (rest m' v')
]

Loops-on_read :
    (m : Mux) (f : Mux → Exec (Mux × Option Err)) (r : Result Rpc)
    → Inv m
    → ((m' : Mux) → Inv m' → Loops (f m'))
    → Loops (on_read f m r)
Loops-on_read m f (err e) v rest = Loops-ended e m v
Loops-on_read m f (ok rpc) v rest = Loops-response rpc m f v rest

-- From a multiplexer that satisfies the invariant, and as long as the rest of the program keeps it,
-- the read loop never panics, whatever the transport reads. Once it has ended, the error is kept, no
-- handler is left, and the invariant holds.
pub read_loop-Loops :
    (as_ : List Arrival) (m : Mux) → All Keeps as_ → Inv m → Loops (read_loop as_ m)
unfolding read_loop
read_loop-Loops [] m ks v = Loops-done m none v
read_loop-Loops (a ∷ as_) m (k, ks) v =
    Loops-on_read (a.meanwhile m) (read_loop as_) a.read (k m v)
      (λ m' v'. read_loop-Loops as_ m' ks v')
