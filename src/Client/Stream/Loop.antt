-- ===== src/Client/Stream/Loop.antt =====
-- The read loop of internal/client/stream.go over the Rpcs that arrive on a stream.
use goat.Base.{
  ◌≡◌, refl, sym, ◌∙◌, ap, inl, inr, Bool, true, false, Option, none, some, List, [], ◌∷◌, ◌++◌,
  All, Option-cases, is_some, Bytes,
}
use goat.Rpc.{Body, Trailer, Rpc, get_headers, get_data, Result, ok}
use goat.Encoding.Metadata.{to_metadata}
use goat.Grpc.{Grpc}
use goat.Server.Stream.Headers.{data_of, bodies_of}
use goat.Client.Stream.{
  ClientStream, goes_on, returns, Hand, fetched, Reading, with_body, end_loop, error_if_done, turn,
  read_loop, on_ready, after_header, hand_over,
}

-- Rpcs that arrive one after the other, each of whose messages is fetched.
abbrev pub arrive : List Rpc → List (Result Rpc × Hand)
arrive [] = []
arrive (r ∷ rs) = (ok r, fetched) ∷ arrive rs

abbrev pub data_all : List Body → List Bytes
data_all [] = []
data_all (b ∷ bs) = data_of b.body_data ++ data_all bs

abbrev pub Decodable : Rpc → Type 0
Decodable r = is_some (to_metadata (get_headers r.header)) ≡ true

abbrev pub Open : Rpc → Type 0
Open r = r.trailer ≡ none

-- The loop over Rpcs that ended with `last`.
abbrev pub Ended : Grpc → List Bytes → Rpc → Reading → Type 0
Ended g datas last l =
    (data_all l.bodies ≡ datas)
    × (l.has_ended ≡ true)
    × (l.writes ≡ [])
    × (l.stream.is_done ≡ true)
    × (l.stream.closed ≡ true)
    × (l.stream.torn_down ≡ true)
    × (l.stream.r_err ≡ (error_if_done g last).1)
    × (l.stream.trailer ≡ last.trailer)

module _ (g : Grpc) where
  turn-after_header :
      (cs : ClientStream) (r : Rpc)
      → Decodable r
      → (cs' : ClientStream) × (turn g cs (ok r) fetched ≡ after_header g cs' r fetched)
  unfolding turn
  turn-after_header cs r d = elim (Option-cases cs.header) [
    | inr (md, k) ↦ (cs, rw k refl)
    | inl k ↦ elim (Option-cases (to_metadata (get_headers r.header))) [
      | inl n ↦ absurd (let d' : false ≡ true = rw n at d in cc)
      | inr (md, j) ↦ (on_ready none (some md) cs, rw k (rw j refl))
    ]
  ]

  hand_over-fetched :
      (cs : ClientStream) (b : Option Body) → hand_over g cs b fetched ≡ goes_on cs b
  hand_over-fetched cs none = refl
  hand_over-fetched cs (some b) = refl

  after_header-Open :
      (cs : ClientStream) (r : Rpc) → Open r → after_header g cs r fetched ≡ goes_on cs r.body
  unfolding error_if_done
  after_header-Open cs r o = rw o (hand_over-fetched cs r.body)

  after_header-last :
      (cs : ClientStream) (r : Rpc) (t : Trailer)
      → r.trailer ≡ some t
      → after_header g cs r fetched ≡ returns cs (error_if_done g r).1 r.trailer
  unfolding error_if_done
  after_header-last cs r t o = rw o refl

  data-with_body :
      (b : Option Body) (l : Reading)
      → data_all (with_body b l).bodies ≡ data_of (get_data b) ++ data_all l.bodies
  data-with_body none l = refl
  data-with_body (some b) l = refl

  Ended-with_body :
      (b : Option Body) (last : Rpc) (datas : List Bytes) (l : Reading)
      → Ended g datas last l
      → Ended g (data_of (get_data b) ++ datas) last (with_body b l)
  Ended-with_body none last datas l e = e
  Ended-with_body (some b) last datas l e =
      (ap (λ x. data_of b.body_data ++ x) e.0, e.1, e.2, e.3, e.4, e.5, e.6, e.7)

  pub read_loop-Ended :
      (ctx_over : Bool) (cs : ClientStream) (rs : List Rpc) (last : Rpc) (t : Trailer)
      (rest : List Rpc)
      → All Open rs
      → All Decodable rs
      → last.trailer ≡ some t
      → Decodable last
      → Ended g (bodies_of rs) last (read_loop g ctx_over cs (arrive (rs ++ last ∷ rest)))
  unfolding read_loop end_loop
  read_loop-Ended ctx_over cs [] last t rest ps qs o d =
      let (cs', e) = turn-after_header cs last d in
      let e' : turn g cs (ok last) fetched ≡ returns cs' (error_if_done g last).1 (some t) =
        (e ∙ after_header-last cs' last t o) ∙ rw o refl in
      rw (e', read_loop) (refl, refl, refl, refl, refl, refl, refl, sym o)
  read_loop-Ended ctx_over cs (r ∷ rs) last t rest (p, ps) (q, qs) o d =
      let (cs', e) = turn-after_header cs r q in
      let e' : turn g cs (ok r) fetched ≡ goes_on cs' r.body = e ∙ after_header-Open cs' r p in
      rw (e', read_loop)
        (Ended-with_body r.body last (bodies_of rs) _
          (read_loop-Ended ctx_over cs' rs last t rest ps qs o d))
