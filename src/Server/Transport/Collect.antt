-- ===== src/Server/Transport/Collect.antt =====
-- What a unary call's headers are after any calls of its handler
-- (internal/server/transport_stream.go).
use goat.Base.{
  ◌≡◌, refl, sym, ◌∙◌, List, [], ◌∷◌, ◌++◌, append_assoc, append-nil, arith, if◌then◌else◌, Bytes,
  lookup,
}
use goat.Encoding.Metadata.{Md, get}
use goat.Server.Transport.{
  UnaryTransport, Op, sets_header, sends_header, sets_trailer, or_empty, new_unary_transport, apply,
  run,
}

-- The header metadata that counts: all that is set up to and with the first SendHeader.
abbrev pub header_mds : List Op → List Md
header_mds [] = []
header_mds (sets_header md ∷ ops) = md ∷ header_mds ops
header_mds (sends_header md ∷ ops) = md ∷ []
header_mds (sets_trailer md ∷ ops) = header_mds ops

abbrev pub trailer_mds : List Op → List Md
trailer_mds [] = []
trailer_mds (sets_header md ∷ ops) = trailer_mds ops
trailer_mds (sends_header md ∷ ops) = trailer_mds ops
trailer_mds (sets_trailer md ∷ ops) = md ∷ trailer_mds ops

-- The values under a key in several maps, one after the other.
abbrev pub join_values : Bytes → List Md → List Bytes
join_values k [] = []
join_values k (md ∷ mds) = get k md ++ join_values k mds

abbrev rest_mds : UnaryTransport → List Op → List Md
rest_mds s ops = if s.headers_sent then [] else header_mds ops

module _ (join : List Md → Md)
    (joins : (k : Bytes) (a b : Md) → get k (join (a ∷ b ∷ [])) ≡ get k a ++ get k b) where
  headers-apply :
      (k : Bytes) (s : UnaryTransport) (op : Op) (ops : List Op)
      → get k (or_empty (apply join s op).headers) ++ join_values k (rest_mds (apply join s op) ops)
        ≡ get k (or_empty s.headers) ++ join_values k (rest_mds s (op ∷ ops))
  unfolding apply
  headers-apply k s (sets_header md) ops = ground (
    arith,
    joins k (or_empty s.headers) md,
    append_assoc (get k (or_empty s.headers)) (get k md) (join_values k (header_mds ops)),
  )
  headers-apply k s (sends_header md) ops = ground (
    arith,
    joins k (or_empty s.headers) md,
    append-nil (get k md),
    append-nil (get k (or_empty s.headers) ++ get k md),
  )
  headers-apply k s (sets_trailer md) ops = ground arith

  trailers-apply :
      (k : Bytes) (s : UnaryTransport) (op : Op) (ops : List Op)
      → get k (or_empty (apply join s op).trailers) ++ join_values k (trailer_mds ops)
        ≡ get k (or_empty s.trailers) ++ join_values k (trailer_mds (op ∷ ops))
  unfolding apply
  trailers-apply k s (sets_header md) ops = ground arith
  trailers-apply k s (sends_header md) ops = ground arith
  trailers-apply k s (sets_trailer md) ops = ground (
    arith,
    joins k (or_empty s.trailers) md,
    append_assoc (get k (or_empty s.trailers)) (get k md) (join_values k (trailer_mds ops)),
  )

  headers-run :
      (k : Bytes) (s : UnaryTransport) (ops : List Op)
      → get k (or_empty (run join s ops).headers)
        ≡ get k (or_empty s.headers) ++ join_values k (rest_mds s ops)
  unfolding run
  headers-run k s [] = ground (arith, append-nil (get k (or_empty s.headers)))
  headers-run k s (op ∷ ops) = headers-run k (apply join s op) ops ∙ headers-apply k s op ops

  trailers-run :
      (k : Bytes) (s : UnaryTransport) (ops : List Op)
      → get k (or_empty (run join s ops).trailers)
        ≡ get k (or_empty s.trailers) ++ join_values k (trailer_mds ops)
  unfolding run
  trailers-run k s [] = sym (append-nil (get k (or_empty s.trailers)))
  trailers-run k s (op ∷ ops) = trailers-run k (apply join s op) ops ∙ trailers-apply k s op ops

  -- If joining two maps appends the values under each key, then whatever a unary handler calls, its
  -- header holds under every key the values set up to the first SendHeader, and its trailer all
  -- values set, in order.
  pub run-values :
      (k name : Bytes) (ops : List Op)
      → let s = run join (new_unary_transport name) ops in
        (get k (or_empty s.headers) ≡ join_values k (header_mds ops))
        × (get k (or_empty s.trailers) ≡ join_values k (trailer_mds ops))
  run-values k name ops = (
    headers-run k (new_unary_transport name) ops ∙ unfold new_unary_transport get lookup in refl,
    trailers-run k (new_unary_transport name) ops ∙ unfold new_unary_transport get lookup in refl,
  )
