-- ===== src/Encoding/Metadata/RoundTrip.antt =====
-- What a peer reads back of metadata sent in a header (internal/util.go).
use goat.Base.{
  ◌≡◌, refl, sym, ap, ◌∙◌, ◌↔◌, inl, inr, true, some, List, [], ◌∷◌, ◌++◌, append_assoc, append-nil,
  arith, if◌then◌else◌, ◌==◌, is_some, Bool-cases, Option-cases, Bytes, Bytes_eq, bytes_eq_iff,
  to_lower, All, lookup, lookup-insert,
}
use goat.Rpc.{KeyValue}
use goat.Encoding.Base64.{encode}
use goat.Encoding.Base64.RoundTrip.{IsByte, decode-encode}
use goat.Encoding.Metadata.{
  Md, get, is_bin, entry_key_values, key_values, to_key_value, header_value, add_value,
  to_metadata_from, to_metadata,
}

-- All values sent under key `k`, where the case of a key does not count.
unfoldable pub values : Bytes → Md → List Bytes
values k [] = []
values k ((j, vs) ∷ md) = if to_lower j == k then vs ++ values k md else values k md

abbrev pub HasBytes : Md → Type 0
HasBytes = All (λ e. All (All IsByte) e.1)

pub get-add_value :
    (j k v : Bytes) (md : Md)
    → get j (add_value k v md) ≡ (if k == j then get j md ++ v ∷ [] else get j md)
unfolding add_value get
get-add_value j k v md = ground (arith, lookup-insert k j (get k md ++ v ∷ []) md, bytes_eq_iff k j)

-- The map after the values of one entry, and of a whole map.
collect_entry : Bytes → List Bytes → Md → Md
collect_entry k [] acc = acc
collect_entry k (v ∷ vs) acc = collect_entry k vs (add_value k v acc)

pub collect : Md → Md → Md
collect [] acc = acc
collect ((k, vs) ∷ md) acc = collect md (collect_entry (to_lower k) vs acc)

header_value-encode :
    (k v : Bytes) → All IsByte v → header_value k (if is_bin k then encode v else v) ≡ some v
unfolding header_value
header_value-encode k v h = elim (Bool-cases (is_bin k)) [
  | inl e ↦ rw (e, decode-encode v h)
  | inr e ↦ rw e
]

to_metadata_from-entry :
    (k : Bytes) (vs : List Bytes) (acc : Md) (rest : List KeyValue)
    → All (All IsByte) vs
    → to_metadata_from acc (entry_key_values k vs ++ rest)
      ≡ to_metadata_from (collect_entry (to_lower k) vs acc) rest
unfolding to_metadata_from entry_key_values collect_entry
to_metadata_from-entry k [] acc rest _ = refl
to_metadata_from-entry k (v ∷ vs) acc rest (hv, hvs) =
    rw (header_value-encode (to_lower k) v hv) (to_metadata_from-entry k vs _ rest hvs)

pub to_metadata_from-collect :
    (md acc : Md) (rest : List KeyValue)
    → HasBytes md
    → to_metadata_from acc (key_values md ++ rest) ≡ to_metadata_from (collect md acc) rest
unfolding key_values collect
to_metadata_from-collect [] acc rest _ = refl
to_metadata_from-collect ((k, vs) ∷ md) acc rest (h, hs) =
    rw (append_assoc (entry_key_values k vs) (key_values md) rest) (
      to_metadata_from-entry k vs acc (key_values md ++ rest) h
      ∙ to_metadata_from-collect md _ rest hs)

get-collect_entry :
    (j k : Bytes) (vs : List Bytes) (acc : Md)
    → get j (collect_entry k vs acc) ≡ (if k == j then get j acc ++ vs else get j acc)
unfolding collect_entry
get-collect_entry j k [] acc = ground (arith, append-nil (get j acc))
get-collect_entry j k (v ∷ vs) acc = ground (
  arith,
  get-collect_entry j k vs (add_value k v acc),
  get-add_value j k v acc,
  append_assoc (get j acc) (v ∷ []) vs,
)

get-collect : (k : Bytes) (md acc : Md) → get k (collect md acc) ≡ get k acc ++ values k md
unfolding collect values
get-collect k [] acc = sym (append-nil (get k acc))
get-collect k ((j, vs) ∷ md) acc = ground (
  arith,
  get-collect k md (collect_entry (to_lower j) vs acc),
  get-collect_entry k (to_lower j) vs acc,
  append_assoc (get k acc) vs (values k md),
)

pub get-collect_nil : (k : Bytes) (md : Md) → get k (collect md []) ≡ values k md
get-collect_nil k md = get-collect k md [] ∙ unfold get lookup in refl

-- Whatever `join` makes of the given metadata, a peer that decodes the header reads, under each
-- lower-case key, all of its values in order, keys that differ in case merged. The values must be
-- bytes.
pub to_metadata-to_key_value :
    (join : List Md → Md) (mds : List Md)
    → HasBytes (join mds)
    → (md : Md) × (to_metadata (to_key_value join mds) ≡ some md)
      × ((k : Bytes) → get k md ≡ values k (join mds))
unfolding to_metadata to_key_value
to_metadata-to_key_value join mds h = (
  collect (join mds) [],
  ap (to_metadata_from []) (sym (append-nil (key_values (join mds))))
      ∙ to_metadata_from-collect (join mds) [] [] h
      ∙ unfold to_metadata_from in refl,
  λ k. get-collect_nil k (join mds),
)

-- The value is not binary, or it is base64.
abbrev pub Decodes : KeyValue → Type 0
Decodes h = is_some (header_value (to_lower h.key) h.value) ≡ true

to_metadata_from-is_some :
    (kvs : List KeyValue) (acc : Md) → (is_some (to_metadata_from acc kvs) ≡ true) ↔ All Decodes kvs
unfolding to_metadata_from
to_metadata_from-is_some [] acc = ground arith
to_metadata_from-is_some (h ∷ kvs) acc =
    elim (Option-cases (header_value (to_lower h.key) h.value)) [
      | inl e ↦ rw e (ground arith)
      | inr (v, e) ↦
          let ih = to_metadata_from-is_some kvs (add_value (to_lower h.key) v acc) in
          rw e (λ p. (refl, ih.0 p), λ q. ih.1 q.1)
    ]

-- A header is refused exactly when the value of some binary key in it is not base64.
pub to_metadata-is_some :
    (kvs : List KeyValue) → (is_some (to_metadata kvs) ≡ true) ↔ All Decodes kvs
unfolding to_metadata
to_metadata-is_some kvs = to_metadata_from-is_some kvs []
