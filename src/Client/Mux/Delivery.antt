-- ===== src/Client/Mux/Delivery.antt =====
-- How responses reach the calls that wait for them (internal/client/multiplexer.go).
use goat.Base.{
  subst, ap, ◌⊎◌, ℕ, ◌≤◌, ◌≡◌, ◌≢◌, refl, inl, inr, none, some, List, [], ◌∷◌, arith, ℕ_eq, lookup,
  length, All-lookup, Option-cases,
}
use goat.Rpc.{Rpc}
use goat.Chan.{Chan, done, blocked, update, update_self, update_ne}
use goat.Client.Mux.{Mux, handle_response}
use goat.Client.Mux.Invariant.{IsServed, Inv, served-update, send-empty, send-full}

-- A response whose id nobody registered changes nothing.
handle_response-unknown :
    (rpc : Rpc) (m : Mux) → lookup rpc.id m.handlers ≡ none → handle_response rpc m ≡ done m
unfolding handle_response
handle_response-unknown rpc m e = rw e

List-cases : (l : List Rpc) → length l ≤ 1 → (l ≡ []) ⊎ (1 ≤ length l)
List-cases [] h = inl refl
List-cases (r ∷ l) h = inr (ground arith)

-- A response never panics. It is dropped if nobody registered its id, it waits if the previous one was not
-- fetched, and otherwise it is in the channel of its id, alone, every other channel unchanged.
pub handle_response-Inv :
    (rpc : Rpc) (m : Mux)
    → Inv m
    → ((lookup rpc.id m.handlers ≡ none) × (handle_response rpc m ≡ done m))
      ⊎ ((a : ℕ) × (lookup rpc.id m.handlers ≡ some a)
          × (1 ≤ length (m.chans a).buffer)
          × (handle_response rpc m ≡ blocked))
      ⊎ ((a : ℕ) × (m' : Mux) × (lookup rpc.id m.handlers ≡ some a)
          × ((m.chans a).buffer ≡ [])
          × (handle_response rpc m ≡ done m')
          × Inv m'
          × ((m'.chans a).buffer ≡ rpc ∷ [])
          × ((b : ℕ) → a ≢ b → m'.chans b ≡ m.chans b)
          × (m'.handlers ≡ m.handlers))
unfolding handle_response
handle_response-Inv rpc m v = elim (Option-cases (lookup rpc.id m.handlers)) [
  | inl e ↦ inl (e, rw e)
  | inr (a, e) ↦
      let entry = All-lookup (IsServed m.next_chan m.chans) m.handlers rpc.id a v.served e in
      elim (List-cases (m.chans a).buffer entry.fits) [
        | inr full ↦ inr (
            inl
              (a, e, full, rw e (rw (send-full (m.chans a) rpc entry.is_open entry.capacity full))))
        | inl empty ↦
            let c : Chan Rpc = record (m.chans a) { buffer = rpc ∷ [] } in
            inr (
              inr (
                a,
                record m { chans = update m.chans a c },
                e,
                empty,
                rw e (rw (send-empty (m.chans a) rpc entry.is_open entry.capacity empty)),
                record {
                  served =
                      served-update m.next_chan rpc.id a m.chans c m.handlers v.served v.distinct e
                        (ground arith);
                  distinct = v.distinct;
                },
                ap (λ (x : Chan Rpc). x.buffer) (update_self m.chans a c),
                (λ b n. update_ne m.chans a b c n),
                refl,
              ))
      ]
]

-- With an empty channel under its id a response goes in.
pub handle_response-empty :
    (rpc : Rpc) (m : Mux) (a : ℕ)
    → Inv m
    → lookup rpc.id m.handlers ≡ some a
    → (m.chans a).buffer ≡ []
    → (m' : Mux) × (handle_response rpc m ≡ done m')
      × Inv m'
      × ((m'.chans a).buffer ≡ rpc ∷ [])
      × (m'.handlers ≡ m.handlers)
handle_response-empty rpc m a v e b = elim (handle_response-Inv rpc m v) [
  | inl (n, _) ↦ absurd (cc)
  | inr (inl (a', e', full, _)) ↦
      let same : a' ≡ a = cc in absurd (ground (arith, ap (λ x. length (m.chans x).buffer) same))
  | inr (inr (a', m', e', _, d, v', got, _, h)) ↦
      let same : a' ≡ a = cc in (m', d, v', subst (λ x. (m'.chans x).buffer ≡ rpc ∷ []) same got, h)
]

-- With one that was not fetched it waits.
pub handle_response-full :
    (rpc : Rpc) (m : Mux) (a : ℕ)
    → Inv m
    → lookup rpc.id m.handlers ≡ some a
    → (m.chans a).buffer ≢ []
    → handle_response rpc m ≡ blocked
handle_response-full rpc m a v e b = elim (handle_response-Inv rpc m v) [
  | inl (n, _) ↦ absurd (cc)
  | inr (inl (_, _, _, d)) ↦ d
  | inr (inr (a', _, e', empty, _, _, _, _, _)) ↦
      let same : a' ≡ a = cc in absurd (b (subst (λ x. (m.chans x).buffer ≡ []) same empty))
]
