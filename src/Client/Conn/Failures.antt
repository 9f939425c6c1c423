-- ===== src/Client/Conn/Failures.antt =====
-- What goes wrong in client.go: responses that invoke cannot read, and streams that cannot be opened.
use goat.Base.{
  ◌+◌, ◌%◌, ◌^◌, ℕ, ◌≡◌, ◌≢◌, ◌↔◌, refl, ◌∙◌, none, some, List, Bytes, ℕ_eq, ◌==◌, lookup,
  lookup-insert, lookup-insert_self, arith, false, nat_eq_iff,
}
use goat.Rpc.{ResponseStatus, Rpc, Err, err, Codec}
use goat.Encoding.Metadata.{Md}
use goat.Encoding.Timeout.{ClientContext}
use goat.Grpc.{Grpc}
use goat.Chan.{panicked, make, update_self}
use goat.Client.Mux.{
  Mux, next_stream_id, register_handler, answer, new_stream_read_writer, stream_write,
}
use goat.Client.Conn.{ClientConn, reply_of, open_stream}

-- A response with the status OK.
abbrev pub IsOk : Rpc → Type 0
IsOk r = (st : ResponseStatus) × (r.status ≡ some st) × (st.code ≡ 0)

-- What invoke makes of a response panics exactly if that has the status OK.
abbrev Panics : Grpc → {M : Type 0} → Codec M → Mux → Rpc → Type 0
Panics g c m r = (reply_of g c (m, answer g r) ≡ panicked) ↔ IsOk r

-- In a multiplexer without a read error, a stream whose opening Rpc cannot be written reports the
-- transport's error, but its handler stays: the map holds it under the new id, with an open and empty
-- channel, and every other handler as before.
pub open_stream-failed :
    (join : List Md → Md) (conn : ClientConn) (method : Bytes) (ctx : ClientContext) (e : Err)
    (m : Mux)
    → m.r_err ≡ none
    → let o = open_stream join conn method ctx (some e) m in
      let (id, m₁) = next_stream_id m in
      (o.stream ≡ err e)
      × (lookup id o.mux.handlers ≡ some m₁.next_chan)
      × (o.mux.chans m₁.next_chan ≡ make 1)
      × ((j : ℕ) → id ≢ j → lookup j o.mux.handlers ≡ lookup j m.handlers)
unfolding open_stream new_stream_read_writer stream_write next_stream_id register_handler make
open_stream-failed join conn method ctx e m healthy =
    let id = (m.stream_counter + 1) % 2 ^ 64 in
    rw healthy (
      refl,
      lookup-insert_self id m.next_chan m.handlers,
      update_self m.chans m.next_chan (make 1),
      λ j other.
          lookup-insert id j m.next_chan m.handlers
          ∙ (let apart : (id == j) ≡ false = ground (arith, nat_eq_iff id j) in rw apart refl),
    )
