-- ===== src/Server/Streams/Table.antt =====
-- The table of streams of server.go: which Rpcs start a stream, which are answered by a reset, and
-- that a stream's Rpcs touch no other stream.
use Prim.Native.Nat.{zero}
use goat.Base.{
  ℕ, suc, ◌≤◌, ◌≡◌, ◌≢◌, ◌↔◌, refl, false, none, some, List, [], ◌∷◌, ltb, arith, ℕ_eq, lookup,
  delete, length, nat_eq_iff,
}
use goat.Rpc.{Rpc}
use goat.Chan.{Exec, done, blocked, panicked}
use goat.Server.Streams.{
  StreamHandler, Streams, is_reset, Choice, queues, Outcome, unregister_stream, unregister_streams,
  cancel_and_wait_for_streams,
}

-- No entry but that of `id` differs.
abbrev pub Elsewhere : ℕ → Streams → Streams → Type 0
Elsewhere id t t' = (j : ℕ) → id ≢ j → lookup j t' ≡ lookup j t

-- Nothing is started, nothing written, and no other stream touched.
abbrev pub Silent : Rpc → Streams → Outcome → Type 0
Silent rpc t o = (o.started ≡ none) × (o.writes ≡ []) × Elsewhere rpc.id t o.streams

-- An Rpc of a known stream with an open channel.
abbrev pub Known : Rpc → StreamHandler → Choice → Streams → Exec Outcome → Type 0
Known rpc s choice t x =
    ((o : Outcome) → x ≡ done o → Silent rpc t o)
    × (x ≢ panicked)
    × ((x ≡ blocked) ↔ (
        (is_reset rpc.reset ≡ false)
        × (choice ≡ queues)
        × (ltb (length s.ch.buffer) s.ch.capacity ≡ false)))

length-unregister_stream : (id : ℕ) (t : Streams) → length (unregister_stream id t) ≤ length t
unfolding unregister_stream delete
length-unregister_stream id [] = ground arith
length-unregister_stream id ((j, s) ∷ t) = ground (arith, length-unregister_stream id t)

length-unregister_streams :
    (ids : List ℕ) (t : Streams) → length (unregister_streams ids t) ≤ length t
length-unregister_streams [] t = ground arith
length-unregister_streams (id ∷ ids) t =
    ground
      (arith, length-unregister_stream id t, length-unregister_streams ids (unregister_stream id t))

length-unregister_stream_head :
    (id : ℕ) (s : StreamHandler) (t : Streams)
    → length (unregister_stream id ((id, s) ∷ t)) ≤ length t
unfolding unregister_stream delete
length-unregister_stream_head id s t =
    ground (arith, length-unregister_stream id t, nat_eq_iff id id)

-- When the connection ends, every stream is cancelled or ends by itself, whichever streams end
-- during which wait: there are at most as many waits as streams.
pub cancel_and_wait_for_streams-ends :
    (fuel : ℕ) (others : ℕ → List ℕ) (t : Streams)
    → length t ≤ fuel
    → (ids : List ℕ) × (cancel_and_wait_for_streams fuel others t ≡ some ids)
      × (length ids ≤ length t)
unfolding cancel_and_wait_for_streams
cancel_and_wait_for_streams-ends fuel others [] enough = ([], refl, ground arith)
cancel_and_wait_for_streams-ends zero others ((id, s) ∷ t) enough = absurd (omega arith)
cancel_and_wait_for_streams-ends (suc n) others ((id, s) ∷ t) enough =
    let t' = unregister_streams (others n) (unregister_stream id ((id, s) ∷ t)) in
    let shrinks : length t' ≤ length t = ground (
      arith,
      length-unregister_streams (others n) (unregister_stream id ((id, s) ∷ t)),
      length-unregister_stream_head id s t,
    ) in
    let (ids, e, few) = cancel_and_wait_for_streams-ends n others t' (omega arith) in
    (id ∷ ids, rw (e, cancel_and_wait_for_streams) refl, omega arith)
