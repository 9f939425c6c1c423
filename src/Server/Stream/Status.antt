-- ===== src/Server/Stream/Status.antt =====
-- How a server's stream ends (SendTrailer and RecvMsg of internal/server/stream.go).
use goat.Base.{
  ℕ, suc, ◌+◌, ◌≤◌, ◌≡◌, ◌≢◌, ◌↔◌, Bool, true, false, Option, none, some, List, [], ◌∷◌, ◌++◌,
  arith, if◌then◌else◌, Bytes, is_some, codes,
}
use goat.Rpc.{
  ResponseStatus, Rpc, get_code, get_message, get_details, Err, eof, status_err, wrapped, ok, Codec,
}
use goat.Grpc.{Grpc}
use goat.Server.Stream.{
  ServerStream, set_header, send_header, set_trailer, send_msg, send_body, send_trailer,
  trailer_status, recv_msg,
}
use goat.Server.Stream.Headers.{bodies_of}
use goat.Server.Stream.Run.{
  Op, set_header_op, send_header_op, set_trailer_op, send_msg_op, send_trailer_op, apply, written,
}

-- How many of some Rpcs end their stream.
abbrev pub count_trailers : List Rpc → ℕ
count_trailers [] = 0
count_trailers (r ∷ rs) = if is_some r.trailer then suc (count_trailers rs) else count_trailers rs

abbrev pub flag : Bool → ℕ
flag true = 1
flag false = 0

module _ (g : Grpc) where
  open g use {join, from_error, status_error, status_error-err}

  -- The status that ends a stream is OK exactly when the handler returned no error.
  pub trailer_status-ok : (e : Option Err) → ((trailer_status g e).code ≡ 0) ↔ (e ≡ none)
  unfolding trailer_status
  trailer_status-ok none = ground arith
  trailer_status-ok (some e) = ground arith

  -- An error that carries a status other than OK is sent as that status.
  pub trailer_status-status_err :
      (st : ResponseStatus) → st.code ≢ 0 → trailer_status g (some (status_err st)) ≡ st
  unfolding trailer_status
  trailer_status-status_err st h = ground (arith, g.from_error-status st)

  module _ {M : Type 0} (c : Codec M) where
    count_trailers-append :
        (rs ss : List Rpc) → count_trailers (rs ++ ss) ≡ count_trailers rs + count_trailers ss
    count_trailers-append [] ss = omega arith
    count_trailers-append (r ∷ rs) ss = ground (arith, count_trailers-append rs ss)

    count_trailers-apply :
        (s : ServerStream) (op : Op M) (w : Option Err)
        → count_trailers (apply g c s op w).writes + flag s.trailers_sent
          ≡ flag (apply g c s op w).next.trailers_sent
    unfolding apply set_header send_header set_trailer send_msg send_body send_trailer
    count_trailers-apply s (set_header_op md) w = ground arith
    count_trailers-apply s (send_header_op md) w = ground arith
    count_trailers-apply s (set_trailer_op md) w = ground arith
    count_trailers-apply s (send_msg_op m) w = ground arith
    count_trailers-apply s (send_trailer_op e) w = ground arith

    -- Whatever is called and whatever the transport answers, a stream writes at most one trailer.
    pub count_trailers-written :
        (s : ServerStream) (ops : List (Op M × Option Err))
        → count_trailers (written g c s ops) + flag s.trailers_sent ≤ 1
    unfolding written
    count_trailers-written s [] = ground arith
    count_trailers-written s ((op, w) ∷ ops) =
        let o = apply g c s op w in
        omega (
          arith,
          count_trailers-append o.writes (written g c o.next ops),
          count_trailers-apply s op w,
          count_trailers-written o.next ops,
        )

    -- A message that is sent after the trailer still goes out, and SendMsg reports only what the
    -- transport does.
    pub send_msg-send_trailer :
        (s : ServerStream) (e : Option Err) (m : M) (body : Bytes) (w w' : Option Err)
        → c.marshal m ≡ ok body
        → let o = send_msg g c (send_trailer g s e w).next m w' in
          (bodies_of o.writes ≡ body ∷ []) × (o.error ≡ w')
    unfolding send_msg
    send_msg-send_trailer s e m body w w' h = ground arith

    -- An Rpc with a trailer yields no message: io.EOF exactly when its status is OK or missing, and
    -- otherwise the client's status, wrapped.
    pub recv_msg-trailer :
        (rpc : Rpc)
        → is_some rpc.trailer ≡ true
        → let r = recv_msg g c (ok rpc) in
          (r.message ≡ none)
          × ((r.error ≡ some eof) ↔ (get_code rpc.status ≡ 0))
          × (get_code rpc.status ≢ 0
              → r.error
                ≡ some (
                    wrapped (codes "RecvMsg") (
                      status_err (record {
                        code = get_code rpc.status;
                        message = get_message rpc.status;
                        details = get_details rpc.status;
                      }))))
    unfolding recv_msg
    recv_msg-trailer rpc h = ground (
      arith,
      g.status_error-err (record {
        code = get_code rpc.status;
        message = get_message rpc.status;
        details = get_details rpc.status;
      }),
    )
