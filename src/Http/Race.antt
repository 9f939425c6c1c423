-- ===== src/Http/Race.antt =====
-- ServeHTTP of http.go sends to a connection without the lock: what happens if the connection leaves
-- the table first.
use goat.Base.{ℕ, ◌≡◌, inl, inr, Bool, Option, none, some, [], Bytes, Bytes_eq, ◌==◌, Bool-cases}
use goat.Rpc.{RequestHeader, Rpc, Result, ok, err}
use goat.Chan.{done, panicked}
use goat.Http.{
  GoatOverHttp, retrieve, unregister, bad_request, serves, serve_from, serve_header, serve_rpc,
  serve_http, hand_over,
}

-- A connection that leaves the table is closed.
abbrev Raced : GoatOverHttp → Bytes → ℕ → Type 0
Raced g id a =
    (hand_over a g ≡ done g)
    × ((g' : GoatOverHttp) × (unregister id g ≡ done g') × (hand_over a g' ≡ panicked))

module _ (decode : Bytes → Result Rpc) (source_to_address : Bytes → Result Bytes) where
  abbrev pub Retrieved : GoatOverHttp → GoatOverHttp → ℕ → Type 0
  Retrieved g g₁ a = (id : Bytes) × ((retrieve id g).0 ≡ g₁) × ((retrieve id g).1 ≡ a)

  serve_from-Retrieved :
      (rpc rpc' : Rpc) (g g₁ : GoatOverHttp) (a : ℕ) (new : Bool) (r : Result Bytes)
      → serve_from decode source_to_address rpc g r ≡ serves g₁ rpc' a new
      → Retrieved g g₁ a
  serve_from-Retrieved rpc rpc' g g₁ a new (err e) h = cc
  serve_from-Retrieved rpc rpc' g g₁ a new (ok id) h = (id, cc, cc)

  serve_header-Retrieved :
      (rpc rpc' : Rpc) (g g₁ : GoatOverHttp) (a : ℕ) (new : Bool) (r : Option RequestHeader)
      → serve_header decode source_to_address rpc g r ≡ serves g₁ rpc' a new
      → Retrieved g g₁ a
  serve_header-Retrieved rpc rpc' g g₁ a new none h = cc
  serve_header-Retrieved rpc rpc' g g₁ a new (some rh) h = elim (Bool-cases (rh.source == [])) [
    | inl y ↦ absurd (let h' : bad_request _ ≡ serves g₁ rpc' a new = rw y at h in cc)
    | inr n ↦ serve_from-Retrieved rpc rpc' g g₁ a new (source_to_address rh.source) (rw n at h)
  ]

  serve_rpc-Retrieved :
      (rpc' : Rpc) (g g₁ : GoatOverHttp) (a : ℕ) (new : Bool) (r : Result Rpc)
      → serve_rpc decode source_to_address g r ≡ serves g₁ rpc' a new
      → Retrieved g g₁ a
  serve_rpc-Retrieved rpc' g g₁ a new (err e) h = cc
  serve_rpc-Retrieved rpc' g g₁ a new (ok rpc) h =
      serve_header-Retrieved rpc rpc' g g₁ a new rpc.header h

  pub serve_http-Retrieved :
      (rpc' : Rpc) (g g₁ : GoatOverHttp) (a : ℕ) (new : Bool) (body : Option (Result Bytes))
      → serve_http decode source_to_address body g ≡ serves g₁ rpc' a new
      → Retrieved g g₁ a
  unfolding serve_http
  serve_http-Retrieved rpc' g g₁ a new none h = cc
  serve_http-Retrieved rpc' g g₁ a new (some (err e)) h = cc
  serve_http-Retrieved rpc' g g₁ a new (some (ok d)) h =
      serve_rpc-Retrieved rpc' g g₁ a new (decode d) h
