-- ===== src/Client/Mux/Steps.antt =====
-- Every interleaving of the operations of internal/client/multiplexer.go. A caller may be stopped
-- between two of its operations, so any operation may follow any other.
use native.Mathlib.Decide.{ℕ_discrete}
use goat.Base.{
  ℕ, ◌≡◌, ◌≢◌, refl, sym, subst, ◌∙◌, ◌⊎◌, inl, inr, true, Option, none, some, List, [], ◌∷◌, ◌≤◌,
  length, arith, ℕ_eq, Map, lookup, All, All-lookup,
}
use goat.Rpc.{Rpc, Err}
use goat.Chan.{
  Chan, Exec, done, blocked, panicked, ◌>>=◌, Received, value, receive, Store, update, update_self,
}
use goat.Client.Mux.{
  Mux, new_mux, next_stream_id, register_handler, unregister_handler, close_error, handle_response,
  receive_at,
}
use goat.Client.Mux.Invariant.{
  IsServed, served-other, Inv, new_mux-Inv, next_stream_id-Inv, register_handler-Inv,
  unregister_handler-Inv, close_error-Inv,
}
use goat.Client.Mux.Delivery.{handle_response-Inv}

-- One operation of one goroutine: of a caller, of the read loop, or Close.
pub data Step (m : Mux) : Mux → Type 0 where
  takes_id : {m' : Mux} → m' ≡ (next_stream_id m).1 → Step m m'
  registers : (id : ℕ) {m' : Mux} → m' ≡ register_handler id m → Step m m'
  unregisters : (id : ℕ) {m' : Mux} → unregister_handler id m ≡ done m' → Step m m'
  responds : (rpc : Rpc) {m' : Mux} → handle_response rpc m ≡ done m' → Step m m'
  closes : (e : Option Err) {m' : Mux} → close_error e m ≡ done m' → Step m m'
  fetches : (a : ℕ) (r : Received Rpc) {m' : Mux} → receive_at a m ≡ done (m', r) → Step m m'

pub data Reach : Mux → Type 0 where
  start : {m : Mux} → m ≡ new_mux → Reach m
  after : {m m' : Mux} → Reach m → Step m m' → Reach m'

-- A channel after a receive: the same, or without its first Rpc.
abbrev Shrinks : Chan Rpc → Chan Rpc → Type 0
Shrinks c c' =
    (c'.closed ≡ c.closed)
    × (c'.capacity ≡ c.capacity)
    × ((c'.buffer ≡ c.buffer) ⊎ ((r : Rpc) × (c.buffer ≡ r ∷ c'.buffer)))

receive-Shrinks :
    (c : Chan Rpc) (l : List Rpc) (r : Chan Rpc × Received Rpc)
    → c.buffer ≡ l
    → receive c ≡ done r
    → Shrinks c r.0
unfolding receive
receive-Shrinks c [] r b e = ground arith
receive-Shrinks c (x ∷ rest) r b e = ground arith

Shrinks-buffer {ℓ} :
    (P : List Rpc → Type ℓ) (c c' : Chan Rpc)
    → ((r : Rpc) (l : List Rpc) → P (r ∷ l) → P l)
    → Shrinks c c'
    → P c.buffer
    → P c'.buffer
Shrinks-buffer P c c' tail sh p = elim sh.2 [
  | inl e ↦ subst P (sym e) p
  | inr (r, e) ↦ tail r c'.buffer (subst P e p)
]

Shrinks-IsServed :
    (next id a : ℕ) (chans : Store Rpc) (c' : Chan Rpc)
    → Shrinks (chans a) c'
    → IsServed next chans (id, a)
    → IsServed next (update chans a c') (id, a)
Shrinks-IsServed next id a chans c' sh s = record {
  allocated = s.allocated;
  is_open = rw (update_self chans a c') (sh.0 ∙ s.is_open);
  capacity = rw (update_self chans a c') (sh.1 ∙ s.capacity);
  fits =
      rw (update_self chans a c')
        (Shrinks-buffer (λ l. length l ≤ 1) (chans a) c' (λ r l h. omega arith) sh s.fits);
  routed =
      rw (update_self chans a c')
        (Shrinks-buffer (All (λ r. r.id ≡ id)) (chans a) c' (λ r l h. h.1) sh s.routed);
}

served-fetch :
    (next a : ℕ) (chans : Store Rpc) (c' : Chan Rpc) (m : Map ℕ ℕ)
    → Shrinks (chans a) c'
    → All (IsServed next chans) m
    → All (IsServed next (update chans a c')) m
served-fetch next a chans c' [] sh s = tt
served-fetch next a chans c' ((id, b) ∷ m) sh (s, ss) = elim (ℕ_discrete b a) [
  | yes e ↦ (
    subst (λ x. IsServed next (update chans a c') (id, x)) (sym e)
        (Shrinks-IsServed next id a chans c' sh (subst (λ x. IsServed next chans (id, x)) e s)),
    served-fetch next a chans c' m sh ss,
  )
  | no n ↦ (served-other next id b a chans c' n s, served-fetch next a chans c' m sh ss)
]

blocked-ne-done : {S : Type 0} {s : S} → blocked ≡ done s → ⊥
blocked-ne-done e = cc

>>=-eq-done :
    {S T : Type 0} (m : Exec S) (f : S → Exec T) {t : T}
    → (m >>= f) ≡ done t
    → (s : S) × (m ≡ done s) × (f s ≡ done t)
>>=-eq-done (done s) f e = (s, refl, e)
>>=-eq-done blocked f e = cc
>>=-eq-done panicked f e = cc

pub receive_at-Inv :
    (a : ℕ) (m : Mux) (r : Received Rpc) (m' : Mux) → Inv m → receive_at a m ≡ done (m', r) → Inv m'
unfolding receive_at
receive_at-Inv a m r m' v e =
    let (x, e', e'') = >>=-eq-done (receive (m.chans a)) _ e in
    let sh = receive-Shrinks (m.chans a) (m.chans a).buffer x refl e' in
    let same : record m { chans = update m.chans a x.0 } ≡ m' = cc in
    subst Inv same (record {
      served = served-fetch m.next_chan a m.chans x.0 m.handlers sh v.served;
      distinct = v.distinct;
    })

close_error_nil-Inv : (m m' : Mux) → Inv m → close_error none m ≡ done m' → Inv m'
unfolding close_error
close_error_nil-Inv m m' v e =
    let same : record m { cancelled = true } ≡ m' = cc in
    subst Inv same (record { served = v.served; distinct = v.distinct })

done-injective : {S : Type 0} {s t : S} → done s ≡ done t → s ≡ t
done-injective e = cc

-- Every operation keeps the invariant.
pub Step-Inv : {m m' : Mux} → Step m m' → Inv m → Inv m'
Step-Inv {m} (takes_id e) v = subst Inv (sym e) (next_stream_id-Inv m v)
Step-Inv {m} (registers id e) v = subst Inv (sym e) (register_handler-Inv id m v)
Step-Inv {m} (unregisters id e) v =
    let (m₁, e₁, v₁, _) = unregister_handler-Inv id m v in
    subst Inv (done-injective (sym e₁ ∙ e)) v₁
Step-Inv {m} (responds rpc {m' = m'} e) v = elim (handle_response-Inv rpc m v) [
  | inl (_, e₁) ↦ subst Inv (done-injective (sym e₁ ∙ e)) v
  | inr (inl (a, _, _, e₁)) ↦ absurd (blocked-ne-done (sym e₁ ∙ e))
  | inr (inr (a, m₁, _, _, e₁, v₁, _, _, _)) ↦ subst Inv (done-injective (sym e₁ ∙ e)) v₁
]
Step-Inv {m} (closes none {m' = m'} e) v = close_error_nil-Inv m m' v e
Step-Inv {m} (closes (some x) e) v =
    let (m₁, e₁, v₁, _, _, _) = close_error-Inv x m v in subst Inv (done-injective (sym e₁ ∙ e)) v₁
Step-Inv {m} (fetches a r {m' = m'} e) v = receive_at-Inv a m r m' v e

pub Reach-Inv : {m : Mux} → Reach m → Inv m
Reach-Inv (start e) = subst Inv (sym e) new_mux-Inv
Reach-Inv (after r s) = Step-Inv s (Reach-Inv r)

done-ne-panicked : {S : Type 0} {s : S} → done s ≡ panicked → ⊥
done-ne-panicked e = cc

blocked-ne-panicked : {S : Type 0} → ◌≢◌ {A = Exec S} blocked panicked
blocked-ne-panicked e = cc

handle_response-ne-panicked : (rpc : Rpc) (m : Mux) → Inv m → handle_response rpc m ≢ panicked
handle_response-ne-panicked rpc m v p = elim (handle_response-Inv rpc m v) [
  | inl (_, e) ↦ done-ne-panicked (sym e ∙ p)
  | inr (inl (_, _, _, e)) ↦ blocked-ne-panicked (sym e ∙ p)
  | inr (inr (_, _, _, _, e, _, _, _, _)) ↦ done-ne-panicked (sym e ∙ p)
]

close_error-ne-panicked : (e : Option Err) (m : Mux) → Inv m → close_error e m ≢ panicked
unfolding close_error
close_error-ne-panicked none m v p = cc
close_error-ne-panicked (some e) m v p =
    let (_, e₁, _, _, _, _) = close_error-Inv e m v in done-ne-panicked (sym e₁ ∙ p)

-- However the goroutines interleave, no operation sends on or closes a closed channel: none panics.
pub Reach-ne-panicked :
    {m : Mux}
    → Reach m
    → (id : ℕ) (rpc : Rpc) (e : Option Err)
    → (unregister_handler id m ≢ panicked)
      × (handle_response rpc m ≢ panicked)
      × (close_error e m ≢ panicked)
Reach-ne-panicked {m} r id rpc e =
    let v = Reach-Inv r in
    let (_, e₁, _, _) = unregister_handler-Inv id m v in
    (
      (λ p. done-ne-panicked (sym e₁ ∙ p)),
      handle_response-ne-panicked rpc m v,
      close_error-ne-panicked e m v,
    )

receive-value :
    (c : Chan Rpc) (l : List Rpc) (r : Chan Rpc × Received Rpc) (rpc : Rpc)
    → c.buffer ≡ l
    → receive c ≡ done r
    → r.1 ≡ value rpc
    → (rest : List Rpc) × (c.buffer ≡ rpc ∷ rest)
unfolding receive
receive-value c [] r rpc b e v = absurd (ground arith)
receive-value c (x ∷ rest) r rpc b e v = (rest, ground arith)

-- A caller that receives on the channel registered for its id gets a response with that id.
pub receive_at-id :
    {m : Mux}
    → Reach m
    → (id a : ℕ) (rpc : Rpc) (m' : Mux) → lookup id m.handlers ≡ some a
    → receive_at a m ≡ done (m', value rpc)
    → rpc.id ≡ id
unfolding receive_at
receive_at-id {m} r id a rpc m' e f =
    let (x, e', e'') = >>=-eq-done (receive (m.chans a)) _ f in
    let got : x.1 ≡ value rpc = cc in
    let (rest, b) = receive-value (m.chans a) (m.chans a).buffer x rpc refl e' got in
    let entry = All-lookup (IsServed m.next_chan m.chans) m.handlers id a (Reach-Inv r).served e in
    (subst (All (λ (q : Rpc). q.id ≡ id)) b entry.routed).0
