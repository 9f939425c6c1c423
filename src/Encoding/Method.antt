-- ===== src/Encoding/Method.antt =====
-- Full method names: fmt.Sprintf("/%s/%s", service, method) and parseRawMethod of server.go.
pub mod RoundTrip
use Prim.Native.Nat.{zero}
use goat.Base.{
  ℕ, suc, ◌≡◌, ◌≢◌, refl, Option, none, some, [], ◌∷◌, ◌++◌, arith, nat_eq, if◌then◌else◌, Bytes,
  All,
}

unfoldable pub full_method : Bytes → Bytes → Bytes
full_method service method = b'/' ∷ service ++ b'/' ∷ method

-- strings.LastIndex(s, "/")
unfoldable pub last_slash : Bytes → Option ℕ
last_slash [] = none
last_slash (c ∷ s) = elim (last_slash s) [
  | some i ↦ some (suc i)
  | none ↦ if nat_eq c b'/' then some 0 else none
]

unfoldable pub take : ℕ → Bytes → Bytes
take zero s = []
take (suc n) [] = []
take (suc n) (c ∷ s) = c ∷ take n s

unfoldable pub drop : ℕ → Bytes → Bytes
drop zero s = s
drop (suc n) [] = []
drop (suc n) (c ∷ s) = drop n s

-- A leading slash is dropped.
unfoldable pub strip_slash : Bytes → Bytes
strip_slash [] = []
strip_slash (c ∷ s) = if nat_eq c b'/' then s else c ∷ s

-- The rest of parseRawMethod, once a leading slash is dropped.
unfoldable pub split_method : Bytes → Option (Bytes × Bytes)
split_method sm = elim (last_slash sm) [ none ↦ none | some p ↦ some (take p sm, drop (suc p) sm) ]

-- parseRawMethod; `none` is its error, which the caller only logs.
unfoldable pub parse_raw_method : Bytes → Option (Bytes × Bytes)
parse_raw_method sm = split_method (strip_slash sm)
