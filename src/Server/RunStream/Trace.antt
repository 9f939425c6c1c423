-- ===== src/Server/RunStream/Trace.antt =====
-- What runStream of server.go writes, whatever its handler does: against the calls that a stream of
-- internal/server/stream.go gets.
use goat.Base.{
  append-nil, ℕ_eq, ℕ, ◌≡◌, refl, sym, ap, ◌∙◌, subst, false, Option, none, some, List, [], ◌∷◌,
  ◌++◌, All, All-append, append_assoc, arith,
}
use goat.Rpc.{RequestHeader, plain_header, Rpc, Trailer, Err, Codec}
use goat.Encoding.Metadata.{Md}
use goat.Grpc.{Grpc}
use goat.Server.Streams.{Streams}
use goat.Server.Stream.{
  ServerStream, new_server_stream, set_header, send_header, set_trailer, send_msg, send_body,
  recv_msg, send_trailer, trailer_status,
}
use goat.Server.Stream.Run.{
  Op, set_header_op, send_header_op, set_trailer_op, send_msg_op, send_trailer_op, apply, written,
}
use goat.Server.RunStream.{
  ReadWake, reader_func, WriteWake, writer_func, Call, sets_header, sends_header, sets_trailer,
  sends_msg, transport_sets_header, transport_sends_header, transport_sets_trailer, StreamProgram,
  returns, calls, receives, StreamServerInfo, head_read, head_write, tail, transport_set_header,
  transport_send_header, transport_set_trailer, call, run_program, run_stream, intercepted,
}

-- The header of an Rpc without its entries.
abbrev pub bare : Option RequestHeader → Option RequestHeader
bare none = none
bare (some h) = some (record h { headers = [] })

-- An Rpc carries the id, the method and the addresses of a stream.
abbrev pub Belongs : ServerStream → Rpc → Type 0
Belongs s r = (r.id ≡ s.id) × (bare r.header ≡ some (plain_header s.method s.src s.dst))

-- It does, and has no trailer.
abbrev pub Amid : ServerStream → Rpc → Type 0
Amid s r = Belongs s r × (r.trailer ≡ none)

abbrev Same : ServerStream → ServerStream → Type 0
Same s s' = (s'.id ≡ s.id) × (s'.method ≡ s.method) × (s'.src ≡ s.src) × (s'.dst ≡ s.dst)

module _ {M : Type 0} where
  abbrev pub op_of : Call M → Op M
  op_of (sets_header md) = set_header_op md
  op_of (sends_header md) = send_header_op md
  op_of (sets_trailer md) = set_trailer_op md
  op_of (sends_msg m) = send_msg_op m
  op_of (transport_sets_header md) = set_header_op md
  op_of (transport_sends_header md) = send_header_op md
  op_of (transport_sets_trailer md) = set_trailer_op md

module _ (g : Grpc) {M : Type 0} (c : Codec M) where
  -- The calls that a program makes, with the transport's answers.
  abbrev pub trace :
      StreamProgram M → ServerStream → List ReadWake → List WriteWake → List (Op M × Option Err)
  trace (returns e) s rs ws = []
  trace (calls k f) s rs ws =
      let w = writer_func (head_write ws) in
      let o = call g c s k w in (op_of k, w) ∷ trace (f o.error) o.next rs (tail ws)
  trace (receives f) s rs ws = trace (f (recv_msg g c (reader_func (head_read rs)))) s (tail rs) ws

  call-apply :
      (s : ServerStream) (k : Call M) (w : Option Err) → call g c s k w ≡ apply g c s (op_of k) w
  unfolding call apply transport_set_header transport_send_header transport_set_trailer set_trailer
  call-apply s (sets_header md) w = refl
  call-apply s (sends_header md) w = refl
  call-apply s (sets_trailer md) w = refl
  call-apply s (sends_msg m) w = refl
  call-apply s (transport_sets_header md) w = refl
  call-apply s (transport_sends_header md) w = refl
  call-apply s (transport_sets_trailer md) w = refl

  apply-Amid :
      (s : ServerStream) (k : Call M) (w : Option Err)
      → s.trailers_sent ≡ false
      → let o = apply g c s (op_of k) w in
        (o.next.trailers_sent ≡ false) × All (Amid s) o.writes × Same s o.next
  unfolding apply set_header send_header set_trailer send_msg send_body
  apply-Amid s (sets_header md) w u = ground arith
  apply-Amid s (sends_header md) w u = ground arith
  apply-Amid s (sets_trailer md) w u = ground arith
  apply-Amid s (sends_msg m) w u = ground arith
  apply-Amid s (transport_sets_header md) w u = ground arith
  apply-Amid s (transport_sends_header md) w u = ground arith
  apply-Amid s (transport_sets_trailer md) w u = ground arith

  Amid-Same : (s s' : ServerStream) (r : Rpc) → Same s s' → Amid s' r → Amid s r
  Amid-Same s s' r (i, m, a, b) ((j, h), t) = ((j ∙ i, h ∙ rw m (rw a (rw b refl))), t)

  All-Amid-Same :
      (s s' : ServerStream) (rs : List Rpc) → Same s s' → All (Amid s') rs → All (Amid s) rs
  All-Amid-Same s s' [] e ps = tt
  All-Amid-Same s s' (r ∷ rs) e (p, ps) = (Amid-Same s s' r e p, All-Amid-Same s s' rs e ps)

  Same-trans : (s s' s'' : ServerStream) → Same s s' → Same s' s'' → Same s s''
  Same-trans s s' s'' (a, b, d, e) (a', b', d', e') = (a' ∙ a, b' ∙ b, d' ∙ d, e' ∙ e)

  -- What a program writes.
  abbrev Runs : StreamProgram M → ServerStream → List ReadWake → List WriteWake → Type 0
  Runs p s rs ws =
      let r = run_program g c p s rs ws in
      (r.stream.trailers_sent ≡ false)
      × All (Amid s) r.writes
      × Same s r.stream
      × ((rest : List (Op M × Option Err))
          → written g c s (trace p s rs ws ++ rest) ≡ r.writes ++ written g c r.stream rest)

  run_program-Runs :
      (p : StreamProgram M) (s : ServerStream) (rs : List ReadWake) (ws : List WriteWake)
      → s.trailers_sent ≡ false
      → Runs p s rs ws
  unfolding run_program written
  run_program-Runs (returns e) s rs ws u = (u, tt, (refl, refl, refl, refl), λ rest. refl)
  run_program-Runs (receives f) s rs ws u =
      run_program-Runs (f (recv_msg g c (reader_func (head_read rs)))) s (tail rs) ws u
  run_program-Runs (calls k f) s rs ws u =
      let w = writer_func (head_write ws) in
      let o = call g c s k w in
      let same : apply g c s (op_of k) w ≡ o = sym (call-apply s k w) in
      let (u', amid, kept) =
        subst (λ x. (x.next.trailers_sent ≡ false) × All (Amid s) x.writes × Same s x.next) same
          (apply-Amid s k w u) in
      let (v, amid', kept', rest_lem) = run_program-Runs (f o.error) o.next rs (tail ws) u' in
      let r = run_program g c (f o.error) o.next rs (tail ws) in
      (
        v,
        All-append (Amid s) o.writes r.writes amid (All-Amid-Same s o.next r.writes kept amid'),
        Same-trans s o.next r.stream kept kept',
        λ rest.
            ap (λ x. x.writes ++ written g c x.next (trace (f o.error) o.next rs (tail ws) ++ rest))
              same
            ∙ ap (λ x. o.writes ++ x) (rest_lem rest)
            ∙ sym (append_assoc o.writes r.writes (written g c r.stream rest)),
      )

  -- The Rpc that ends a stream.
  abbrev pub Closes : ServerStream → Option Err → Rpc → Type 0
  Closes s e r =
      Belongs s r
      × ((t : Trailer) × (r.trailer ≡ some t))
      × (r.status ≡ some (trailer_status g e))
      × (r.body ≡ none)

  -- The stream that runStream makes, and the program that it runs.
  abbrev pub stream_of : StreamServerInfo → ℕ → RequestHeader → ServerStream
  stream_of info id h = new_server_stream id info.info_method h.destination h.source

  -- What runStream writes is what its stream writes for the calls that its handler makes, and the
  -- end with its error.
  pub run_stream-written :
      (interceptor : Option (StreamServerInfo → StreamProgram M → StreamProgram M))
      (info : StreamServerInfo) (p : StreamProgram M) (id : ℕ) (h : RequestHeader) (md : Md)
      (rs : List ReadWake) (ws : List WriteWake) (t : Streams)
      → let s = stream_of info id h in
        let o = run_stream g c interceptor info p id h md rs ws t in
        (w : Option Err) × (o.writes
          ≡ written g c s (
              trace (intercepted g c interceptor info p) s rs ws
              ++ (send_trailer_op o.app_error, w) ∷ []))
  unfolding run_stream new_server_stream written apply
  run_stream-written interceptor info p id h md rs ws t =
      let s = stream_of info id h in
      let q = intercepted g c interceptor info p in
      let r = run_program g c q s rs ws in
      let w = writer_func (head_write r.wakes) in
      let (_, _, _, rest_lem) = run_program-Runs q s rs ws refl in
      (
        w,
        ap (λ x. r.writes ++ x) (sym (append-nil (send_trailer g r.stream r.app_error w).writes))
            ∙ sym (rest_lem ((send_trailer_op r.app_error, w) ∷ [])),
      )
