-- ===== src/Server/Stream/Headers.antt =====
-- Headers and messages that reach the client over a transport that does not fail
-- (internal/server/stream.go), against a description of them by the handler's calls alone.
use mathlib.Core.Path.{ap₂}
use goat.Base.{
  ℕ, sym, ◌≡◌, refl, ap, ◌∙◌, true, Option, none, some, List, [], ◌∷◌, ◌++◌, map, append_assoc,
  append-nil, arith, if◌then◌else◌, Bytes,
}
use goat.Rpc.{KeyValue, Rpc, get_headers, get_data, Err, Result, ok, err, Codec}
use goat.Encoding.Metadata.{Md, to_key_value}
use goat.Grpc.{Grpc}
use goat.Server.Stream.{
  ServerStream, new_server_stream, set_header, send_header, set_trailer, send_msg, send_body,
  send_trailer,
}
use goat.Server.Stream.Run.{
  Op, set_header_op, send_header_op, set_trailer_op, send_msg_op, send_trailer_op, apply, written,
  reliable,
}

-- All header entries of some Rpcs, and all their messages.
abbrev pub headers_of : List Rpc → List KeyValue
headers_of [] = []
headers_of (r ∷ rs) = get_headers r.header ++ headers_of rs

abbrev pub data_of : Option Bytes → List Bytes
data_of none = []
data_of (some d) = d ∷ []

abbrev pub bodies_of : List Rpc → List Bytes
bodies_of [] = []
bodies_of (r ∷ rs) = data_of (get_data r.body) ++ bodies_of rs

module _ (g : Grpc) {M : Type 0} (c : Codec M) where
  open g use {join}
  open c use {marshal}

  abbrev serialised : Result Bytes → List Bytes
  serialised (ok b) = b ∷ []
  serialised (err e) = []

  -- The messages that the handler sent, serialised; one that cannot be is left out.
  abbrev pub messages : List (Op M) → List Bytes
  messages [] = []
  messages (send_msg_op m ∷ ops) = serialised (marshal m) ++ messages ops
  messages (set_header_op md ∷ ops) = messages ops
  messages (send_header_op md ∷ ops) = messages ops
  messages (set_trailer_op md ∷ ops) = messages ops
  messages (send_trailer_op e ∷ ops) = messages ops

  -- The metadata that goes out, given what was set before: all that is set until the first call
  -- that sends, which is SendHeader, the message or the trailer.
  abbrev pub sent_headers : List Md → List (Op M) → List KeyValue
  sent_headers mds [] = []
  sent_headers mds (set_header_op md ∷ ops) = sent_headers (mds ++ md ∷ []) ops
  sent_headers mds (send_header_op md ∷ ops) = to_key_value join (mds ++ md ∷ [])
  sent_headers mds (set_trailer_op md ∷ ops) = sent_headers mds ops
  sent_headers mds (send_msg_op m ∷ ops) = elim (marshal m) [
    | ok b ↦ to_key_value join mds
    | err e ↦ sent_headers mds ops
  ]
  sent_headers mds (send_trailer_op e ∷ ops) = to_key_value join mds

  -- What is still to go out of a stream.
  abbrev rest_headers : ServerStream → List (Op M) → List KeyValue
  rest_headers s ops = if s.headers_sent then [] else sent_headers s.headers ops

  -- Trailers never leave before the headers.
  abbrev pub IsOrdered : ServerStream → Type 0
  IsOrdered s = s.trailers_sent ≡ true → s.headers_sent ≡ true

  pub apply-IsOrdered :
      (s : ServerStream) (op : Op M) (w : Option Err)
      → IsOrdered s
      → IsOrdered (apply g c s op w).next
  unfolding apply set_header send_header set_trailer send_msg send_body send_trailer
  apply-IsOrdered s (set_header_op md) w h = ground arith
  apply-IsOrdered s (send_header_op md) w h = ground arith
  apply-IsOrdered s (set_trailer_op md) w h = ground arith
  apply-IsOrdered s (send_msg_op m) w h = ground arith
  apply-IsOrdered s (send_trailer_op e) w h = ground arith

  rest_headers-apply :
      (s : ServerStream) (op : Op M) (ops : List (Op M))
      → IsOrdered s
      → rest_headers s (op ∷ ops)
        ≡ headers_of (apply g c s op none).writes ++ rest_headers (apply g c s op none).next ops
  unfolding apply set_header send_header set_trailer send_msg send_body send_trailer
  rest_headers-apply s (set_header_op md) ops h = ground arith
  rest_headers-apply s (send_header_op md) ops h =
      ground (arith, append-nil (to_key_value join (s.headers ++ md ∷ [])))
  rest_headers-apply s (set_trailer_op md) ops h = ground arith
  rest_headers-apply s (send_msg_op m) ops h =
      ground (arith, append-nil (to_key_value join s.headers))
  rest_headers-apply s (send_trailer_op e) ops h =
      ground (arith, append-nil (to_key_value join s.headers))

  headers_of-append : (rs ss : List Rpc) → headers_of (rs ++ ss) ≡ headers_of rs ++ headers_of ss
  headers_of-append [] ss = refl
  headers_of-append (r ∷ rs) ss =
      rw (headers_of-append rs ss)
        (sym (append_assoc (get_headers r.header) (headers_of rs) (headers_of ss)))

  headers_of-written_from :
      (s : ServerStream) (ops : List (Op M))
      → IsOrdered s
      → headers_of (written g c s (reliable ops)) ≡ rest_headers s ops
  unfolding written
  headers_of-written_from s [] h = ground arith
  headers_of-written_from s (op ∷ ops) h =
      let o = apply g c s op none in
      headers_of-append o.writes (written g c o.next (reliable ops))
      ∙ ap (◌++◌ (headers_of o.writes))
          (headers_of-written_from o.next ops (apply-IsOrdered s op none h))
      ∙ sym (rest_headers-apply s op ops h)

  pub bodies_of-append : (rs ss : List Rpc) → bodies_of (rs ++ ss) ≡ bodies_of rs ++ bodies_of ss
  bodies_of-append [] ss = refl
  bodies_of-append (r ∷ rs) ss =
      rw (bodies_of-append rs ss)
        (sym (append_assoc (data_of (get_data r.body)) (bodies_of rs) (bodies_of ss)))

  pub bodies_of-apply :
      (s : ServerStream) (op : Op M) (w : Option Err)
      → bodies_of (apply g c s op w).writes ≡ messages (op ∷ [])
  unfolding apply set_header send_header set_trailer send_msg send_body send_trailer
  bodies_of-apply s (set_header_op md) w = ground arith
  bodies_of-apply s (send_header_op md) w = ground arith
  bodies_of-apply s (set_trailer_op md) w = ground arith
  bodies_of-apply s (send_msg_op m) w = ground arith
  bodies_of-apply s (send_trailer_op e) w = ground arith

  pub messages-cons :
      (op : Op M) (ops : List (Op M)) → messages (op ∷ ops) ≡ messages (op ∷ []) ++ messages ops
  messages-cons (set_header_op md) ops = refl
  messages-cons (send_header_op md) ops = refl
  messages-cons (set_trailer_op md) ops = refl
  messages-cons (send_msg_op m) ops =
      ap (λ bs. bs ++ messages ops) (sym (append-nil (serialised (marshal m))))
  messages-cons (send_trailer_op e) ops = refl

  -- Over a transport that does not fail, the header entries that a new stream writes are, whatever
  -- the handler calls, those of the metadata set before and by the first call that sends, once.
  pub headers_of-written :
      (id : ℕ) (method src dst : Bytes) (ops : List (Op M))
      → headers_of (written g c (new_server_stream id method src dst) (reliable ops))
        ≡ sent_headers [] ops
  headers_of-written id method src dst ops =
      headers_of-written_from (new_server_stream id method src dst) ops
        (unfold new_server_stream in λ e. cc)
      ∙ unfold new_server_stream in refl

  -- The messages that any stream hands to the transport are, whatever the transport answers, the
  -- ones that the handler sent, in order, each once; one that cannot be serialised is left out.
  pub bodies_of-written :
      (s : ServerStream) (ops : List (Op M × Option Err))
      → bodies_of (written g c s ops) ≡ messages (map (λ o. o.0) ops)
  unfolding written
  bodies_of-written s [] = refl
  bodies_of-written s ((op, w) ∷ ops) =
      let o = apply g c s op w in
      bodies_of-append o.writes (written g c o.next ops)
      ∙ ap₂ ◌++◌ (bodies_of-apply s op w) (bodies_of-written o.next ops)
      ∙ sym (messages-cons op (map (λ o'. o'.0) ops))
