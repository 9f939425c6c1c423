-- ===== src/Server/Serve/Queues.antt =====
-- The streams of one connection of server.go, as independent queues that hold at most one Rpc.
use goat.Base.{
  ℕ, ◌≤◌, ◌≡◌, ◌≢◌, refl, sym, ap, subst, ◌∙◌, inl, inr, Bool, true, false, not, ◌&&◌, Option, none,
  some, List, [], ◌∷◌, ◌++◌, ℕ_eq, nat_eq, nat_eq_iff, ltb, lookup, insert, delete, lookup-insert,
  lookup-delete, is_some, length, length-append, if◌then◌else◌, arith, All, All-lookup, All-insert,
  All-delete, Bool-cases, Option-cases,
}
use goat.Rpc.{RequestHeader, Rpc, Err}
use goat.Encoding.Timeout.{context_from_headers}
use goat.Chan.{Exec, done, panicked, make, send}
use goat.Server.Streams.{
  StreamHandler, Streams, is_reset, Choice, queues, gives_up, Outcome, quiet, to_stream,
  to_new_stream, reset_stream, process_streaming_rpc, unregister_stream,
}

-- The channel of a stream: open, with room for one Rpc.
abbrev pub Slot : ℕ × StreamHandler → Type 0
Slot (id, s) = (s.ch.closed ≡ false) × (s.ch.capacity ≡ 1) × (length s.ch.buffer ≤ 1)

abbrev pub Sound : Streams → Type 0
Sound t = All Slot t

-- The Rpcs that wait for the handler of a stream, if there is one.
abbrev pub buffer_of : Option StreamHandler → Option (List Rpc)
buffer_of none = none
buffer_of (some s) = some s.ch.buffer

abbrev pub view : ℕ → Streams → Option (List Rpc)
view id t = buffer_of (lookup id t)

-- An Rpc that starts a stream.
abbrev pub starts : Rpc → RequestHeader → Bool
starts rpc h =
    not (is_reset rpc.reset)
    && (not (is_some rpc.body)
        && (not (is_some rpc.trailer) && is_some (context_from_headers h.headers)))

-- What an Rpc of a stream does to its queue: it starts it, or it joins it, unless it is a reset or
-- the loop gives up.
abbrev pub joined : Rpc → Choice → List Rpc → List Rpc
joined rpc queues q = if is_reset rpc.reset then q else q ++ rpc ∷ []
joined rpc (gives_up e) q = q

abbrev pub queue_rpc : Rpc → RequestHeader → Choice → Option (List Rpc) → Option (List Rpc)
queue_rpc rpc h choice none = if starts rpc h then some [] else none
queue_rpc rpc h choice (some q) = some (joined rpc choice q)

view-insert :
    (id j : ℕ) (s : StreamHandler) (t : Streams)
    → view j (insert id s t) ≡ (if nat_eq id j then some s.ch.buffer else view j t)
view-insert id j s t = ground (arith, lookup-insert id j s t)

view-delete :
    (id j : ℕ) (t : Streams) → view j (delete id t) ≡ (if nat_eq id j then none else view j t)
view-delete id j t = ground (arith, lookup-delete id j t)

-- A table in which only one queue changes.
abbrev pub Moves : ℕ → (Option (List Rpc) → Option (List Rpc)) → Streams → Streams → Type 0
Moves id f t t' = (j : ℕ) → view j t' ≡ (if nat_eq id j then f (view j t) else view j t)

Moves-same :
    (id : ℕ) (f : Option (List Rpc) → Option (List Rpc)) (t : Streams)
    → f (view id t) ≡ view id t
    → Moves id f t t
Moves-same id f t e j = elim (Bool-cases (nat_eq id j)) [
  | inl y ↦
      let same : id ≡ j = (nat_eq_iff id j).0 y in
      rw y (sym (subst (λ x. f (view x t) ≡ view x t) same e))
  | inr n ↦ rw n refl
]

pub Moves-insert :
    (id : ℕ) (f : Option (List Rpc) → Option (List Rpc)) (s : StreamHandler) (t : Streams)
    → f (view id t) ≡ some s.ch.buffer
    → Moves id f t (insert id s t)
Moves-insert id f s t e j = elim (Bool-cases (nat_eq id j)) [
  | inl y ↦
      let same : id ≡ j = (nat_eq_iff id j).0 y in
      view-insert id j s t ∙ rw y (sym (subst (λ x. f (view x t) ≡ some s.ch.buffer) same e))
  | inr n ↦ view-insert id j s t ∙ rw n refl
]

pub Sound-lookup :
    (t : Streams) (id : ℕ) (s : StreamHandler) → Sound t → lookup id t ≡ some s → Slot (id, s)
Sound-lookup t id s v k = All-lookup Slot t id s v k

pub Sound-insert :
    (t : Streams) (id : ℕ) (s : StreamHandler) → Slot (id, s) → Sound t → Sound (insert id s t)
Sound-insert t id s p v = All-insert Slot id s t p v

-- What processStreamingRpc does to the queues.
abbrev Acts : Rpc → RequestHeader → Choice → Streams → Outcome → Type 0
Acts rpc h choice t o = Sound o.streams × Moves rpc.id (queue_rpc rpc h choice) t o.streams

to_new_stream-streams :
    (rpc : Rpc) (h : RequestHeader) (w : Option Err) (t : Streams)
    → (to_new_stream rpc h w t).streams
      ≡ (if starts rpc h then insert rpc.id (record { ch = make 1; cancelled = false }) t else t)
unfolding to_new_stream reset_stream
to_new_stream-streams rpc h w t = ground arith

to_new_stream-Acts :
    (rpc : Rpc) (h : RequestHeader) (w : Option Err) (choice : Choice) (t : Streams)
    → Sound t
    → lookup rpc.id t ≡ none
    → Acts rpc h choice t (to_new_stream rpc h w t)
to_new_stream-Acts rpc h w choice t v n =
    let s : StreamHandler = record { ch = make 1; cancelled = false } in
    let gone : view rpc.id t ≡ none = ap buffer_of n in
    let f = queue_rpc rpc h choice in
    elim (Bool-cases (starts rpc h)) [
      | inl y ↦
          let e : (to_new_stream rpc h w t).streams ≡ insert rpc.id s t =
            to_new_stream-streams rpc h w t ∙ rw y refl in
          let begun : f (view rpc.id t) ≡ some s.ch.buffer =
            ap f gone ∙ rw y (unfold make in refl) in
          subst (λ x. Sound x × Moves rpc.id f t x) (sym e)
            (
              Sound-insert t rpc.id s (unfold make in (refl, refl, ground arith)) v,
              Moves-insert rpc.id f s t begun,
            )
      | inr no_start ↦
          let e : (to_new_stream rpc h w t).streams ≡ t =
            to_new_stream-streams rpc h w t ∙ rw no_start refl in
          let none_still : f (view rpc.id t) ≡ view rpc.id t = ap f gone ∙ rw no_start (sym gone) in
          subst (λ x. Sound x × Moves rpc.id f t x) (sym e) (v, Moves-same rpc.id f t none_still)
    ]

-- The same of a computation that may wait, and cannot panic.
abbrev pub Serves : Rpc → RequestHeader → Choice → Streams → Exec Outcome → Type 0
Serves rpc h choice t x = (x ≢ panicked) × ((o : Outcome) → x ≡ done o → Acts rpc h choice t o)

Serves-done :
    (rpc : Rpc) (h : RequestHeader) (choice : Choice) (t : Streams) (o : Outcome)
    → Acts rpc h choice t o
    → Serves rpc h choice t (done o)
Serves-done rpc h choice t o a =
    ((λ e. cc), λ o' e. let same : o ≡ o' = cc in subst (Acts rpc h choice t) same a)

to_stream-Serves :
    (rpc : Rpc) (h : RequestHeader) (choice : Choice) (t : Streams) (s : StreamHandler)
    → Sound t
    → lookup rpc.id t ≡ some s
    → Serves rpc h choice t (to_stream rpc s choice t)
unfolding to_stream send
to_stream-Serves rpc h (gives_up e) t s v k =
    let f = queue_rpc rpc h (gives_up e) in
    let held : view rpc.id t ≡ some s.ch.buffer = ap buffer_of k in
    let slot = Sound-lookup t rpc.id s v k in
    elim (Bool-cases (is_reset rpc.reset)) [
      | inl r ↦ rw r (
          Serves-done rpc h (gives_up e) t _ (
            Sound-insert t rpc.id (record s { cancelled = true }) slot v,
            Moves-insert rpc.id f (record s { cancelled = true }) t (ap f held),
          ))
      | inr n ↦
          rw n
            (Serves-done rpc h (gives_up e) t _ (v, Moves-same rpc.id f t (ap f held ∙ sym held)))
    ]
to_stream-Serves rpc h queues t s v k =
    let f = queue_rpc rpc h queues in
    let held : view rpc.id t ≡ some s.ch.buffer = ap buffer_of k in
    let (unclosed, one, few) = Sound-lookup t rpc.id s v k in
    elim (Bool-cases (is_reset rpc.reset)) [
      | inl r ↦
          let e : f (view rpc.id t) ≡ some s.ch.buffer = ap f held ∙ rw r refl in
          rw r (
            Serves-done rpc h queues t _ (
              Sound-insert t rpc.id (record s { cancelled = true }) (unclosed, one, few) v,
              Moves-insert rpc.id f (record s { cancelled = true }) t e,
            ))
      | inr n ↦ elim (Bool-cases (ltb (length s.ch.buffer) s.ch.capacity)) [
        | inr full ↦ rw n (rw unclosed (rw full ((λ e. cc), λ o e. cc)))
        | inl room ↦
            let q = s.ch.buffer ++ rpc ∷ [] in
            let s' : StreamHandler = record s {
              ch = record { buffer = q; capacity = s.ch.capacity; closed = false };
            } in
            let e : f (view rpc.id t) ≡ some q = ap f held ∙ rw n refl in
            let fits : length q ≤ 1 = ground (arith, length-append s.ch.buffer (rpc ∷ [])) in
            rw n (
              rw unclosed (
                rw room (
                  Serves-done rpc h queues t (quiet (insert rpc.id s' t))
                    (Sound-insert t rpc.id s' (refl, one, fits) v, Moves-insert rpc.id f s' t e))))
      ]
    ]

pub process_streaming_rpc-Serves :
    (rpc : Rpc) (h : RequestHeader) (w : Option Err) (choice : Choice) (t : Streams)
    → Sound t
    → Serves rpc h choice t (process_streaming_rpc rpc h w choice t)
unfolding process_streaming_rpc
process_streaming_rpc-Serves rpc h w choice t v = elim (Option-cases (lookup rpc.id t)) [
  | inl n ↦ rw n (Serves-done rpc h choice t _ (to_new_stream-Acts rpc h w choice t v n))
  | inr (s, k) ↦ rw k (to_stream-Serves rpc h choice t s v k)
]

-- unregisterStream removes one queue.
pub unregister_stream-Sound :
    (id : ℕ) (t : Streams)
    → Sound t
    → Sound (unregister_stream id t) × Moves id (λ q. none) t (unregister_stream id t)
unfolding unregister_stream
unregister_stream-Sound id t v = (All-delete Slot id t v, λ j. view-delete id j t)

-- The first Rpc leaves a queue.
abbrev pub fetched : Option (List Rpc) → Option (List Rpc)
fetched none = none
fetched (some []) = some []
fetched (some (r ∷ q)) = some q
