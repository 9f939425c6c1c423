-- ===== src/Encoding/Timeout/EndToEnd.antt =====
-- What a server's context holds of a client's (client.go and server.go, over internal/util.go).
use goat.Base.{
  subst, ℕ, ◌<◌, ◌≤◌, ◌+◌, ◌^◌, ◌*◌, ◌≡◌, refl, ap, ◌∙◌, inl, inr, false, Option, some, List, [],
  ◌∷◌, ◌++◌, append_assoc, arith, ◌==◌, if◌then◌else◌, Bool-cases, Bytes, Bytes_eq, bytes_eq_iff,
  codes, to_lower,
}
use goat.Rpc.{KeyValue}
use goat.Encoding.Int.{ℤ, pos}
use goat.Encoding.Metadata.{
  Md, get, is_bin, key_values, entry_key_values, to_key_value, header_value, add_value,
  to_metadata_from, to_metadata,
}
use goat.Encoding.Metadata.RoundTrip.{
  values, HasBytes, collect, get-collect_nil, get-add_value, to_metadata_from-collect,
}
use goat.Encoding.Timeout.{
  timeout_millis, format_timeout, timeout_headers, headers_from_context, parse_grpc_timeout,
  find_timeout, ServerContext, context_from_headers,
}
use goat.Encoding.Timeout.Value.{parse_grpc_timeout-format_timeout}

abbrev pub timeout_key : Bytes
timeout_key = codes "grpc-timeout"

find_timeout-entry :
    (k : Bytes) (vs : List Bytes) (rest : List KeyValue)
    → (to_lower k == timeout_key) ≡ false
    → find_timeout (entry_key_values k vs ++ rest) ≡ find_timeout rest
unfolding find_timeout entry_key_values
find_timeout-entry k [] rest h = refl
find_timeout-entry k (v ∷ vs) rest h = rw h (find_timeout-entry k vs rest h)

find_timeout_one :
    (d : ℤ) → find_timeout (timeout_headers (some d)) ≡ parse_grpc_timeout (format_timeout d)
unfolding find_timeout timeout_headers
find_timeout_one d = ground arith

append-eq-nil {ℓ} : {A : Type ℓ} (xs ys : List A) → xs ++ ys ≡ [] → (xs ≡ []) × (ys ≡ [])
append-eq-nil [] ys e = (refl, e)
append-eq-nil (x ∷ xs) ys e = cc

find_timeout-key_values :
    (md : Md) (rest : List KeyValue)
    → values timeout_key md ≡ []
    → find_timeout (key_values md ++ rest) ≡ find_timeout rest
unfolding key_values values
find_timeout-key_values [] rest h = refl
find_timeout-key_values ((k, vs) ∷ md) rest h = elim (Bool-cases (to_lower k == timeout_key)) [
  | inl e ↦
      let (none_here, none_below) = append-eq-nil vs (values timeout_key md) (rw e at h) in
      rw none_here (unfold entry_key_values in find_timeout-key_values md rest none_below)
  | inr e ↦
      rw (append_assoc (entry_key_values k vs) (key_values md) rest)
        (find_timeout-entry k vs _ e ∙ find_timeout-key_values md rest (rw e at h))
]

-- What the server's context holds, as a function of the client's.
expected : Md → ℕ → Md
expected md n = add_value timeout_key (format_timeout (pos n)) (collect md [])

to_metadata-timeout :
    (md : Md) (n : ℕ)
    → HasBytes md
    → to_metadata (key_values md ++ timeout_headers (some (pos n))) ≡ some (expected md n)
unfolding to_metadata expected
to_metadata-timeout md n bytes =
    to_metadata_from-collect md [] (timeout_headers (some (pos n))) bytes
    ∙ unfold timeout_headers to_metadata_from header_value is_bin in refl

find_timeout-timeout :
    (md : Md) (n : ℕ)
    → values timeout_key md ≡ []
    → n < 2 ^ 63
    → find_timeout (key_values md ++ timeout_headers (some (pos n)))
      ≡ some (pos (timeout_millis (pos n) * 1000000))
find_timeout-timeout md n absent fits =
    find_timeout-key_values md (timeout_headers (some (pos n))) absent
    ∙ rw (find_timeout_one, parse_grpc_timeout-format_timeout n fits)

get-expected :
    (k : Bytes) (md : Md) (n : ℕ)
    → values timeout_key md ≡ []
    → get k (expected md n)
      ≡ (if timeout_key == k then format_timeout (pos n) ∷ [] else values k md)
unfolding expected
get-expected k md n absent = elim (Bool-cases (timeout_key == k)) [
  | inl e ↦
      let same : timeout_key ≡ k = (bytes_eq_iff timeout_key k).0 e in
      get-add_value k timeout_key (format_timeout (pos n)) (collect md [])
      ∙ rw e (
          ap (λ (vs : List Bytes). vs ++ format_timeout (pos n) ∷ [])
            (get-collect_nil k md ∙ subst (λ j. values j md ≡ []) same absent))
  | inr e ↦
      get-add_value k timeout_key (format_timeout (pos n)) (collect md [])
      ∙ rw e (get-collect_nil k md)
]

headers_from_context_lem :
    (join : List Md → Md) (md : Md) (n : ℕ)
    → headers_from_context join (record { outgoing = some md; remaining = some (pos n) })
      ≡ key_values (join (md ∷ [])) ++ timeout_headers (some (pos n))
unfolding headers_from_context to_key_value
headers_from_context_lem join md n = refl

context_from_headers_lem :
    (hs : List KeyValue) (md : Md) (t : Option ℤ)
    → to_metadata hs ≡ some md
    → find_timeout hs ≡ t
    → context_from_headers hs ≡ some (record { incoming = md; timeout = t })
unfolding context_from_headers
context_from_headers_lem hs md t e f = rw (e, f)

-- From the headers of a client whose deadline is 0 to 2^63 - 1 nanoseconds away and whose joined
-- metadata are bytes with no timeout among them, the server reads the metadata under every key but
-- the timeout, the time as text under that one, and a deadline of whole milliseconds: it is at most
-- that of the client and less than a millisecond below it, if that is at least a millisecond away,
-- and one millisecond otherwise.
pub context_from_headers-headers_from_context :
    (join : List Md → Md) (md : Md) (n : ℕ)
    → HasBytes (join (md ∷ []))
    → values timeout_key (join (md ∷ [])) ≡ []
    → n < 2 ^ 63
    → (ctx : ServerContext) × (ms : ℕ) × (context_from_headers
          (headers_from_context join (record { outgoing = some md; remaining = some (pos n) }))
        ≡ some ctx)
      × (ctx.timeout ≡ some (pos (ms * 1000000)))
      × (1000000 ≤ n → (ms * 1000000 ≤ n) × (n < ms * 1000000 + 1000000))
      × (n < 1000000 → ms ≡ 1)
      × ((k : Bytes)
          → get k ctx.incoming
            ≡ (if timeout_key == k then format_timeout (pos n) ∷ [] else values k (join (md ∷ []))))
context_from_headers-headers_from_context join md n bytes absent fits =
    let sent = join (md ∷ []) in
    let hs = key_values sent ++ timeout_headers (some (pos n)) in
    let t : Option ℤ = some (pos (timeout_millis (pos n) * 1000000)) in
    (
      record { incoming = expected sent n; timeout = t },
      timeout_millis (pos n),
      ap context_from_headers (headers_from_context_lem join md n)
          ∙ context_from_headers_lem hs (expected sent n) t (to_metadata-timeout sent n bytes)
              (find_timeout-timeout sent n absent fits),
      refl,
      unfold timeout_millis in ground arith,
      unfold timeout_millis in ground arith,
      λ k. get-expected k sent n absent,
    )
