-- ===== src/Server/Unary.antt =====
-- processUnaryRpc of server.go. The method's handler is a function of the context and the decoded
-- request; it returns its response, its error and what it did with its transport stream.
pub mod Answer
pub mod Events
use goat.Base.{
  ℕ, ◌≡◌, Bool, true, false, Option, none, some, List, [], ◌∷◌, ltb, length, init, if◌then◌else◌,
  Bytes,
}
use goat.Rpc.{
  RequestHeader, ResponseStatus, Body, Trailer, Rpc, plain_header, get_data, Err, status_err,
  Result, ok, err, Codec,
}
use goat.Encoding.Metadata.{Md, to_key_value}
use goat.Encoding.Timeout.{ServerContext, context_from_headers}
use goat.Encoding.Method.{full_method}
use goat.Grpc.{Grpc}
use goat.Chan.{Exec, done, panicked}
use goat.Server.Transport.{UnaryTransport, Op, or_empty, new_unary_transport, run}

-- codes.InvalidArgument
abbrev invalid_argument : ℕ
invalid_argument = 3

-- The way back: the proxies that the request went through, less the last one, if there were others.
unfoldable pub return_route : List Bytes → Option (List Bytes)
return_route record_ = if ltb 1 (length record_) then some (init record_) else none

pub record Handled (M : Type 0) : Type 0 where
  pub response : Option M
  pub app_error : Option Err
  pub calls : List Op

abbrev pub Handler : Type 0 → Type 0
Handler M = ServerContext → Result (Option M) → Handled M

module _ (g : Grpc) {M : Type 0} (c : Codec M) (text : Err → Bytes) where
  abbrev decoded : Result M → Result (Option M)
  decoded (ok m) = ok (some m)
  decoded (err e) =
      err (status_err (record { code = invalid_argument; message = text e; details = [] }))

  -- `dec`: a request with no data is left as it is.
  unfoldable pub decode_request : Option Body → Result (Option M)
  decode_request body = elim (get_data body) [ none ↦ ok none | some d ↦ decoded (c.unmarshal d) ]

  -- An error that is no status is taken for one of a context.
  unfoldable pub response_status : Option Err → Option ResponseStatus
  response_status none = none
  response_status (some e) =
      let (st, known) = g.from_error e in some (if known then st else g.from_context_error e)

  abbrev body_of : Result Bytes → Option Body
  body_of (ok b) = some (record { body_data = some b })
  body_of (err e) = none

  -- A response that cannot be serialised leaves no body.
  unfoldable pub response_body : Option M → Option Body
  response_body none = none
  response_body (some m) = body_of (c.marshal m)

  unfoldable pub unary_response : Bytes → Rpc → RequestHeader → Handled M → Rpc
  unfolding return_route response_status response_body
  unary_response name rpc h r =
      let sts = run g.join (new_unary_transport name) r.calls in
      record {
        id = rpc.id;
        header = some (record (plain_header name h.destination h.source) {
          headers = to_key_value g.join (or_empty sts.headers ∷ []);
          proxy_next = return_route h.proxy_record;
        });
        status = response_status r.app_error;
        body = response_body r.response;
        trailer = some (record { metadata = to_key_value g.join (or_empty sts.trailers ∷ []) });
        reset = none;
      }

  -- processUnaryRpc of a request with header `h`: the program panics if its metadata cannot be
  -- decoded.
  unfoldable pub process_unary_rpc : Bytes → Bytes → Handler M → Rpc → RequestHeader → Exec Rpc
  unfolding unary_response decode_request
  process_unary_rpc service method handler rpc h = elim (context_from_headers h.headers) [
    | none ↦ panicked
    | some ctx ↦
        done (
          unary_response (full_method service method) rpc h (handler ctx (decode_request rpc.body)))
  ]
