-- ===== src/Encoding/Base64.antt =====
-- base64.URLEncoding, as internal/util.go uses it on the values of `-bin` headers.
pub mod RoundTrip
use goat.Base.{
  ℕ, ◌+◌, ◌-◌, ◌*◌, ◌/◌, ◌%◌, ◌||◌, Option, none, some, [], ◌∷◌, leb, nat_eq, if◌then◌else◌, Bytes,
}

-- The alphabet A-Z a-z 0-9 - _ at a value below 64.
unfoldable pub digit_char : ℕ → ℕ
digit_char d =
    if leb d 25
    then b'A' + d
    else if leb d 51
    then b'a' + (d - 26)
    else if leb d 61
    then b'0' + (d - 52)
    else if nat_eq d 62
    then b'-'
    else b'_'

unfoldable pub char_digit : ℕ → Option ℕ
char_digit c =
    if nat_eq c b'-'
    then some 62
    else if nat_eq c b'_'
    then some 63
    else if leb c b'/'
    then none
    else if leb c b'9'
    then some (c - b'0' + 52)
    else if leb c b'@'
    then none
    else if leb c b'Z'
    then some (c - b'A')
    else if leb c b'`'
    then none
    else if leb c b'z'
    then some (c - b'a' + 26)
    else none

unfoldable pub encode : Bytes → Bytes
encode [] = []
encode (a ∷ []) = digit_char (a / 4) ∷ digit_char (a % 4 * 16) ∷ b'=' ∷ b'=' ∷ []
encode (a ∷ b ∷ []) =
    digit_char (a / 4) ∷ digit_char (a % 4 * 16 + b / 16) ∷ digit_char (b % 16 * 4) ∷ b'=' ∷ []
encode (a ∷ b ∷ c ∷ s) =
    digit_char (a / 4)
    ∷ digit_char (a % 4 * 16 + b / 16)
    ∷ digit_char (b % 16 * 4 + c / 64)
    ∷ digit_char (c % 64)
    ∷ encode s

infixl 5 ◌>>=◌
abbrev pub ◌>>=◌ {ℓ κ} : {A : Type ℓ} {B : Type κ} → Option A → (A → Option B) → Option B
none >>= f = none
some a >>= f = f a

-- The decoder passes over line breaks wherever they stand.
unfoldable pub skip_breaks : Bytes → Bytes
skip_breaks [] = []
skip_breaks (c ∷ s) =
    let rest = skip_breaks s in if nat_eq c b'\n' || nat_eq c b'\r' then rest else c ∷ rest

-- The last quantum, with one or two padding characters; the bits left over are not checked.
unfoldable pub decode_end : ℕ → ℕ → ℕ → Option Bytes
decode_end p q r =
    if nat_eq r b'='
    then (do x ← char_digit p; y ← char_digit q; some ((x * 4 + y / 16) ∷ []))
    else (do
      x ← char_digit p
      y ← char_digit q
      z ← char_digit r
      some ((x * 4 + y / 16) ∷ (y % 16 * 16 + z / 4) ∷ []))

unfoldable pub decode_quads : Bytes → Option Bytes
decode_quads [] = some []
decode_quads (p ∷ q ∷ r ∷ s ∷ []) = if nat_eq s b'=' then decode_end p q r else (do
  x ← char_digit p
  y ← char_digit q
  z ← char_digit r
  w ← char_digit s
  some ((x * 4 + y / 16) ∷ (y % 16 * 16 + z / 4) ∷ (z % 4 * 64 + w) ∷ []))
decode_quads (p ∷ q ∷ r ∷ s ∷ t ∷ rest) = do
  x ← char_digit p
  y ← char_digit q
  z ← char_digit r
  w ← char_digit s
  more ← decode_quads (t ∷ rest)
  some ((x * 4 + y / 16) ∷ (y % 16 * 16 + z / 4) ∷ (z % 4 * 64 + w) ∷ more)
decode_quads _ = none

unfoldable pub decode : Bytes → Option Bytes
unfolding skip_breaks decode_quads
decode s = decode_quads (skip_breaks s)
