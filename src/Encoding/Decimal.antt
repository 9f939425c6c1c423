-- ===== src/Encoding/Decimal.antt =====
-- Decimal text: fmt's "%d" of a positive int64, as client.go prints a timeout, and strconv.ParseInt
-- in base 10 at 64 bits, as server.go reads it.
pub mod RoundTrip
use Prim.Native.Nat.{zero}
use native.Mathlib.Nat.{pow-suc}
use goat.Base.{
  ℕ, suc, ◌+◌, ◌-◌, ◌*◌, ◌/◌, ◌%◌, ◌^◌, ◌≤◌, ◌<◌, ◌≡◌, ◌≢◌, refl, ap, ◌∙◌, inl, inr, Bool, true,
  false, ◌||◌, Option, none, some, [], ◌∷◌, ◌++◌, arith, leb, ltb, nat_eq, if◌then◌else◌,
  Bool-cases, Bytes, All,
}
use goat.Encoding.Int.{ℤ, pos, negsuc}

-- The digits of `n` before `out`. A number below 10 ^ fuel needs no more rounds than `fuel`.
unfoldable pub digits : ℕ → ℕ → Bytes → Bytes
digits zero n out = out
digits (suc fuel) n out =
    let more = digits fuel (n / 10) ((b'0' + n % 10) ∷ out) in
    if ltb n 10 then (b'0' + n) ∷ out else more

-- "%d": an int64 has at most 19 digits.
unfoldable pub format : ℕ → Bytes
unfolding digits
format n = digits 19 n []

-- The number that digits spell behind `n`; the bound is tested at the end, where the source tests it
-- as it goes, and both refuse a number that is too large.
unfoldable pub parse_digits : Bytes → ℕ → Option ℕ
parse_digits [] n = some n
parse_digits (c ∷ s) n =
    if ltb c b'0' || ltb b'9' c then none else parse_digits s (n * 10 + (c - b'0'))

unfoldable pub parse_magnitude : Bytes → Option ℕ
unfolding parse_digits
parse_magnitude [] = none
parse_magnitude (c ∷ s) = parse_digits (c ∷ s) 0

unfoldable pub signed : Bool → Option ℕ → Option ℤ
signed neg none = none
signed true (some n) =
    if ltb (2 ^ 63) n then none else some (if nat_eq n 0 then pos 0 else negsuc (n - 1))
signed false (some n) = if leb (2 ^ 63) n then none else some (pos n)

-- strconv.ParseInt(s, 10, 64); `none` is its error, which no caller reads.
unfoldable pub parse_int : Bytes → Option ℤ
unfolding parse_magnitude signed
parse_int [] = none
parse_int (c ∷ s) =
    if nat_eq c b'-'
    then signed true (parse_magnitude s)
    else if nat_eq c b'+'
    then signed false (parse_magnitude s)
    else signed false (parse_magnitude (c ∷ s))
