-- ===== src/Client/Stream/EndToEnd.antt =====
-- A stream from the handler of the server to the client: internal/server/stream.go over a transport
-- that does not fail, with internal/client/stream.go.
use mathlib.Core.Path.{ap₂}
use goat.Base.{
  ℕ, ◌≡◌, ◌≢◌, refl, sym, ◌∙◌, ap, subst, Bool, true, false, Option, none, some, List, [], ◌∷◌,
  ◌++◌, All, All-append, append_assoc, arith, Bytes,
}
use goat.Rpc.{plain_header, Rpc, Trailer, ResponseStatus, Err, eof, status_err, Codec}
use goat.Encoding.Metadata.{to_key_value}
use goat.Grpc.{Grpc}
use goat.Server.Stream.{
  ServerStream, new_server_stream, set_header, send_header, set_trailer, send_msg, send_body,
  send_trailer, trailer_status, pending_headers,
}
use goat.Server.Stream.Run.{
  Op, set_header_op, send_header_op, set_trailer_op, send_msg_op, send_trailer_op, apply, written,
  reliable,
}
use goat.Server.Stream.Headers.{
  bodies_of, messages, bodies_of-append, bodies_of-apply, messages-cons,
}
use goat.Server.Stream.Status.{trailer_status-ok, trailer_status-status_err}
use goat.Client.Stream.{ClientStream, Reading, error_if_done, read_loop}
use goat.Client.Stream.Loop.{arrive, data_all, Decodable, Open, read_loop-Ended}

module _ {M : Type 0} where
  abbrev ends_stream : Op M → Bool
  ends_stream (send_trailer_op e) = true
  ends_stream (set_header_op md) = false
  ends_stream (send_header_op md) = false
  ends_stream (set_trailer_op md) = false
  ends_stream (send_msg_op m) = false

  abbrev pub Ongoing : Op M → Type 0
  Ongoing op = ends_stream op ≡ false

module _ (g : Grpc) {M : Type 0} (c : Codec M) where
  -- A call that does not end the stream.
  apply-Ongoing :
      (s : ServerStream) (op : Op M)
      → s.trailers_sent ≡ false
      → Ongoing op
      → ((apply g c s op none).next.trailers_sent ≡ false) × All Open (apply g c s op none).writes
  unfolding apply set_header send_header set_trailer send_msg send_body
  apply-Ongoing s (set_header_op md) u p = ground arith
  apply-Ongoing s (send_header_op md) u p = ground arith
  apply-Ongoing s (set_trailer_op md) u p = ground arith
  apply-Ongoing s (send_msg_op m) u p = ground arith
  apply-Ongoing s (send_trailer_op e) u p = cc

  -- What a handler writes that ends with `e`: Rpcs without a trailer, and one with it.
  abbrev Split : ServerStream → List (Op M) → Option Err → Type 0
  Split s ops e =
      (pre : List Rpc) × (last : Rpc) × (t : Trailer) × (written g c s
          (reliable (ops ++ send_trailer_op e ∷ []))
        ≡ pre ++ last ∷ [])
      × All Open pre
      × (bodies_of pre ≡ messages g c ops)
      × (last.trailer ≡ some t)
      × (last.status ≡ some (trailer_status g e))

  written-Split :
      (s : ServerStream) (ops : List (Op M)) (e : Option Err)
      → s.trailers_sent ≡ false
      → All Ongoing ops
      → Split s ops e
  unfolding written apply send_trailer
  written-Split s [] e u ps = (
    [],
    record {
      id = s.id;
      header = some (record (plain_header s.method s.src s.dst) { headers = pending_headers g s });
      status = some (trailer_status g e);
      body = none;
      trailer = some (record { metadata = to_key_value g.join s.trailers });
      reset = none;
    },
    record { metadata = to_key_value g.join s.trailers },
    rw u refl,
    tt,
    refl,
    refl,
    refl,
  )
  written-Split s (op ∷ ops) e u (p, ps) =
      let o = apply g c s op none in
      let (unsent, opens) = apply-Ongoing s op u p in
      let (pre, last, t, same, open_pre, bodies, tr, st) = written-Split o.next ops e unsent ps in
      (
        o.writes ++ pre,
        last,
        t,
        ap (λ x. o.writes ++ x) same ∙ sym (append_assoc o.writes pre (last ∷ [])),
        All-append Open o.writes pre opens open_pre,
        bodies_of-append g c o.writes pre
            ∙ ap₂ ◌++◌ (bodies_of-apply g c s op none) bodies
            ∙ sym (messages-cons g c op ops),
        tr,
        st,
      )

  -- How the client sees the end of a stream that ended with `e`.
  abbrev pub EndsAs : Option Err → Reading → Type 0
  EndsAs e l =
      (e ≡ none → l.stream.r_err ≡ some eof)
      × ((st : ResponseStatus)
          → st.code ≢ 0
          → e ≡ some (status_err st)
          → l.stream.r_err ≡ some (status_err st))

  pub error_if_done-trailer_status :
      (r : Rpc) (t : Trailer) (e : Option Err)
      → r.trailer ≡ some t
      → r.status ≡ some (trailer_status g e)
      → (e ≡ none → (error_if_done g r).1 ≡ some eof)
        × ((st : ResponseStatus)
            → st.code ≢ 0
            → e ≡ some (status_err st)
            → (error_if_done g r).1 ≡ some (status_err st))
  unfolding error_if_done
  error_if_done-trailer_status r t e o s = (
    (λ n.
        let zero_code : (trailer_status g e).code ≡ 0 = (trailer_status-ok g e).1 n in
        rw (o, error_if_done) (rw s (rw zero_code refl))),
    λ st bad f.
        let same : trailer_status g e ≡ st =
          ap (trailer_status g) f ∙ trailer_status-status_err g st bad in
        rw (o, error_if_done) (rw s (rw same (ground (arith, g.status_error-err st bad)))),
  )

  pub All-split :
      (P : Rpc → Type 0) (rs : List Rpc) (r : Rpc) → All P (rs ++ r ∷ []) → All P rs × P r
  All-split P [] r (p, ps) = (tt, p)
  All-split P (r' ∷ rs) r (p, ps) = let (qs, q) = All-split P rs r ps in ((p, qs), q)

  -- What reaches a client.
  abbrev pub Delivers : List (Op M) → Option Err → Reading → Type 0
  Delivers ops e l =
      (data_all l.bodies ≡ messages g c ops)
      × (l.stream.is_done ≡ true)
      × (l.stream.closed ≡ true)
      × (l.writes ≡ [])
      × EndsAs e l

  -- If a server's handler makes any calls but the end of its stream and then ends it with `e`, the
  -- transport does not fail, and the headers written can be decoded, then the client's read loop
  -- delivers the messages sent, in order, each once, less those that cannot be serialised, and ends
  -- without a reset, with io.EOF if `e` is nil and with the status of `e` if that is not OK.
  pub read_loop-written :
      (id : ℕ) (method src dst : Bytes) (ops : List (Op M)) (e : Option Err) (ctx_over : Bool)
      (cs : ClientStream)
      → All Ongoing ops
      → All Decodable (
          written g c
            (new_server_stream id method src dst)
            (reliable (ops ++ send_trailer_op e ∷ [])))
      → Delivers ops e (
          read_loop g ctx_over cs (
            arrive (
              written g c
                (new_server_stream id method src dst)
                (reliable (ops ++ send_trailer_op e ∷ [])))))
  read_loop-written id method src dst ops e ctx_over cs ongoing decodable =
      let (pre, last, t, same, open_pre, bodies, tr, st) =
        written-Split (new_server_stream id method src dst) ops e (unfold new_server_stream in refl)
          ongoing in
      let (decodable_pre, decodable_last) =
        All-split Decodable pre last (subst (All Decodable) same decodable) in
      let ended =
        read_loop-Ended g ctx_over cs pre last t [] open_pre decodable_pre tr decodable_last in
      let ends = error_if_done-trailer_status last t e tr st in
      subst (λ rs. Delivers ops e (read_loop g ctx_over cs (arrive rs))) (sym same)
        (
          ended.0 ∙ bodies,
          ended.3,
          ended.4,
          ended.2,
          ((λ n. ended.6 ∙ ends.0 n), λ s bad f. ended.6 ∙ ends.1 s bad f),
        )
