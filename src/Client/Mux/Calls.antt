-- ===== src/Client/Mux/Calls.antt =====
-- Whole calls through the multiplexer: CallUnaryMethod of internal/client/multiplexer.go.
use goat.Client.Mux.Steps.{receive_at-Inv}
use goat.Base.{
  insert, delete, ℕ, ◌≡◌, refl, sym, ap, subst, ◌∙◌, Option, none, some, [], ◌∷◌, arith, ℕ_eq, Map,
  lookup, lookup-insert, lookup-insert_self, lookup-delete, ◌==◌, if◌then◌else◌,
}
use goat.Rpc.{Rpc, Body, Err, ok}
use goat.Grpc.{Grpc}
use goat.Chan.{Chan, Exec, done, blocked, value, make, receive, update, update_self}
use goat.Client.Mux.{
  Mux, Wake, on_channel, next_stream_id, register_handler, unregister_handler, handle_response,
  receive_at, unary_result, answer, observed, finish_call, call_unary_method,
}
use goat.Client.Mux.Invariant.{
  Inv, next_stream_id-Inv, register_handler-Inv, unregister_handler-Inv,
}
use goat.Client.Mux.Delivery.{handle_response-empty, handle_response-full}

-- The registered channel of a new call is empty, open, and under the call's id.
register_handler_lem :
    (id : ℕ) (m : Mux)
    → (lookup id (register_handler id m).handlers ≡ some m.next_chan)
      × ((register_handler id m).chans m.next_chan ≡ make 1)
unfolding register_handler
register_handler_lem id m =
    (lookup-insert_self id m.next_chan m.handlers, update_self m.chans m.next_chan (make 1))

-- Two responses to one call, of which the first was not fetched: the second blocks the read loop,
-- which holds the mutex.
pub handle_response-twice :
    (r₁ r₂ : Rpc) (m : Mux) (a : ℕ) (m₁ : Mux)
    → Inv m
    → lookup r₁.id m.handlers ≡ some a
    → (m.chans a).buffer ≡ []
    → r₁.id ≡ r₂.id
    → handle_response r₁ m ≡ done m₁
    → handle_response r₂ m₁ ≡ blocked
handle_response-twice r₁ r₂ m a m₁ v e empty same h =
    let (m', d, v', got, hs) = handle_response-empty r₁ m a v e empty in
    let eq : m' ≡ m₁ = cc in
    let found : lookup r₂.id m'.handlers ≡ some a =
      subst (λ k. lookup k m'.handlers ≡ some a) same
        (subst (λ l. lookup r₁.id l ≡ some a) (sym hs) e) in
    subst (λ x. handle_response r₂ x ≡ blocked) eq (handle_response-full r₂ m' a v' found (λ p. cc))

receive_at-one :
    (a : ℕ) (m : Mux) (rpc : Rpc)
    → (m.chans a).buffer ≡ rpc ∷ []
    → receive_at a m
      ≡ done (record m { chans = update m.chans a (record (m.chans a) { buffer = [] }) }, value rpc)
unfolding receive_at receive
receive_at-one a m rpc e = rw e

finish_call-received :
    (g : Grpc) (resp : Rpc) (m m₁ m₂ m₃ : Mux) (a : ℕ)
    → handle_response resp m ≡ done m₁
    → receive_at a m₁ ≡ done (m₂, value resp)
    → unregister_handler resp.id m₂ ≡ done m₃
    → finish_call g 0 resp.id a none (handle_response resp) on_channel m ≡ done (m₃, answer g resp)
unfolding finish_call unary_result observed
finish_call-received g resp m m₁ m₂ m₃ a e₁ e₂ e₃ = rw e₁ (rw e₂ (rw e₃ refl))

call_unary_method-healthy :
    (g : Grpc) (k : ℕ) (w : Option Err) (others : Mux → Exec Mux) (wake : Wake) (m : Mux)
    → m.r_err ≡ none
    → call_unary_method g k w others wake m
      ≡ finish_call g k
          (next_stream_id m).0
          (next_stream_id m).1.next_chan
          w
          others
          wake
          (register_handler (next_stream_id m).0 (next_stream_id m).1)
unfolding call_unary_method
call_unary_method-healthy g k w others wake m h = rw h

-- What the map holds after a handler came and went.
lookup-gone :
    (id a j : ℕ) (h : Map ℕ ℕ)
    → lookup j (delete id (insert id a h)) ≡ (if id == j then none else lookup j h)
lookup-gone id a j h = ground (arith, lookup-delete id j (insert id a h), lookup-insert id j a h)

registered_handlers :
    (id : ℕ) (m : Mux)
    → (register_handler id (next_stream_id m).1).handlers
      ≡ insert id (next_stream_id m).1.next_chan m.handlers
unfolding register_handler next_stream_id
registered_handlers id m = refl

pub call_unary_method-received :
    (g : Grpc) (m : Mux) (resp : Rpc)
    → Inv m
    → m.r_err ≡ none
    → resp.id ≡ (next_stream_id m).0
    → (m' : Mux) × (call_unary_method g 0 none (handle_response resp) on_channel m
        ≡ done (m', answer g resp))
      × Inv m'
      × ((j : ℕ) → lookup j m'.handlers ≡ (if resp.id == j then none else lookup j m.handlers))
unfolding make
call_unary_method-received g m resp v healthy same =
    let n = (next_stream_id m).1 in
    let a = n.next_chan in
    let m₀ = register_handler resp.id n in
    let v₀ = register_handler-Inv resp.id n (next_stream_id-Inv m v) in
    let fresh = register_handler_lem resp.id n in
    let (m₁, e₁, v₁, got, hs) =
      handle_response-empty resp m₀ a v₀ fresh.0 (ap (λ (x : Chan Rpc). x.buffer) fresh.1) in
    let m₂ = record m₁ { chans = update m₁.chans a (record (m₁.chans a) { buffer = [] }) } in
    let e₂ = receive_at-one a m₁ resp got in
    let v₂ = receive_at-Inv a m₁ (value resp) m₂ v₁ e₂ in
    let (m₃, e₃, v₃, gone) = unregister_handler-Inv resp.id m₂ v₂ in
    (
      m₃,
      call_unary_method-healthy g 0 none (handle_response resp) on_channel m healthy
          ∙ subst
              (λ id.
                finish_call g 0 id a none (handle_response resp) on_channel (register_handler id n)
                ≡ done (m₃, answer g resp))
              same (finish_call-received g resp m₀ m₁ m₂ m₃ a e₁ e₂ e₃),
      v₃,
      λ j.
          ap (λ (h : Map ℕ ℕ). lookup j h)
            (gone ∙ ap (λ (h : Map ℕ ℕ). delete resp.id h) (hs ∙ registered_handlers resp.id m))
          ∙ lookup-gone resp.id a j m.handlers,
    )

-- A call that is answered with a body, under its id and with no status, returns that body, and
-- leaves the handler map as it was but for the id, which is free again.
pub call_unary_method-answered :
    (g : Grpc) (m : Mux) (resp : Rpc) (b : Body)
    → Inv m
    → m.r_err ≡ none
    → resp.id ≡ (next_stream_id m).0
    → resp.status ≡ none
    → resp.body ≡ some b
    → (m' : Mux) × (call_unary_method g 0 none (handle_response resp) on_channel m
        ≡ done (m', ok (some b)))
      × Inv m'
      × ((j : ℕ) → lookup j m'.handlers ≡ (if resp.id == j then none else lookup j m.handlers))
unfolding answer
call_unary_method-answered g m resp b v healthy same s c =
    let (m', e, v', gone) = call_unary_method-received g m resp v healthy same in
    let body : answer g resp ≡ ok (some b) = rw (s, answer) (rw c refl) in
    (m', e ∙ ap (λ x. done (m', x)) body, v', gone)
