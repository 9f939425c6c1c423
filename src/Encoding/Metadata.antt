-- ===== src/Encoding/Metadata.antt =====
-- internal/util.go: gRPC metadata to and from the key-value pairs of a header.
-- `metadata.MD` is a Go map, here an entry list in the order in which `range` visits it.
-- `metadata.Join` belongs to grpc-go and is the parameter `join`.
pub mod RoundTrip
use goat.Base.{
  ◌≡◌, Bool, Option, none, some, List, [], ◌∷◌, ◌++◌, if◌then◌else◌, Bytes, codes, to_lower,
  has_suffix, Bytes_eq, Map, lookup, insert,
}
use goat.Rpc.{KeyValue}
use goat.Encoding.Base64.{encode, decode, ◌>>=◌}

abbrev pub Md : Type 0
Md = Map Bytes (List Bytes)

-- `md[k]`: a missing key reads as nil.
unfoldable pub get : Bytes → Md → List Bytes
unfolding lookup
get k md = elim (lookup k md) [ none ↦ [] | some vs ↦ vs ]

-- Binary headers travel as base64.
unfoldable pub is_bin : Bytes → Bool
is_bin k = has_suffix k (codes "-bin")

unfoldable pub entry_key_values : Bytes → List Bytes → List KeyValue
entry_key_values k [] = []
entry_key_values k (v ∷ vs) =
    record { key = k; value = if is_bin (to_lower k) then encode v else v } ∷ entry_key_values k vs

unfoldable pub key_values : Md → List KeyValue
unfolding entry_key_values
key_values [] = []
key_values ((k, vs) ∷ md) = entry_key_values k vs ++ key_values md

-- ToKeyValue
unfoldable pub to_key_value : (List Md → Md) → List Md → List KeyValue
unfolding key_values
to_key_value join mds = key_values (join mds)

-- The text that arrived for key `k`, decoded if the key is binary.
unfoldable pub header_value : Bytes → Bytes → Option Bytes
header_value k v = if is_bin k then decode v else some v

-- `md[k] = append(md[k], v)`
unfoldable pub add_value : Bytes → Bytes → Md → Md
unfolding get insert
add_value k v md = insert k (get k md ++ v ∷ []) md

unfoldable pub to_metadata_from : Md → List KeyValue → Option Md
to_metadata_from md [] = some md
to_metadata_from md (h ∷ kvs) = do
  v ← header_value (to_lower h.key) h.value
  to_metadata_from (add_value (to_lower h.key) v md) kvs

-- ToMetadata; `none` is its error, whose text no caller reads.
unfoldable pub to_metadata : List KeyValue → Option Md
unfolding to_metadata_from
to_metadata kvs = to_metadata_from [] kvs
