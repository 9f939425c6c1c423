-- ===== src/Encoding/Decimal/RoundTrip.antt =====
-- Reading back a printed number (client.go prints it, server.go reads it).
use Prim.Native.Nat.{zero}
use native.Mathlib.Nat.{pow-suc}
use goat.Base.{
  ap, [], ℕ, suc, ◌+◌, ◌*◌, ◌/◌, ◌%◌, ◌^◌, ◌<◌, ◌≡◌, refl, ◌∙◌, inl, inr, false, some, ◌∷◌, arith,
  ltb, lt→ltb, Bool-cases, ltb→lt, Bytes,
}
use goat.Encoding.Int.{pos}
use goat.Encoding.Decimal.{digits, format, parse_digits, signed, parse_int}

parse_digits-digit :
    (d m : ℕ) (s : Bytes) → d < 10 → parse_digits ((b'0' + d) ∷ s) m ≡ parse_digits s (m * 10 + d)
unfolding parse_digits
parse_digits-digit d m s h = ground arith

last_digit : (n : ℕ) → n / 10 * 10 + n % 10 ≡ n
last_digit n = omega arith

parse_digits-digits :
    (fuel n : ℕ) (out : Bytes)
    → n < 10 ^ suc fuel
    → parse_digits (digits (suc fuel) n out) 0 ≡ parse_digits out n
unfolding digits
parse_digits-digits zero n out lt =
    rw (lt→ltb n 10 lt) (parse_digits-digit n 0 out lt ∙ ap (parse_digits out) (omega arith))
parse_digits-digits (suc fuel) n out lt = elim (Bool-cases (ltb n 10)) [
  | inl small ↦
      rw small
        (parse_digits-digit n 0 out (ltb→lt n 10 small) ∙ ap (parse_digits out) (omega arith))
  | inr large ↦ rw large (
      parse_digits-digits fuel (n / 10) ((b'0' + n % 10) ∷ out)
        (omega (arith, pow-suc 10 (suc fuel)))
      ∙ parse_digits-digit (n % 10) (n / 10) out (omega arith)
      ∙ ap (parse_digits out) (last_digit n))
]

digits-head :
    (fuel n : ℕ) (out : Bytes)
    → n < 10 ^ suc fuel
    → (d : ℕ) × (s : Bytes) × (d < 10) × (digits (suc fuel) n out ≡ (b'0' + d) ∷ s)
unfolding digits
digits-head zero n out lt = (n, out, lt, rw (lt→ltb n 10 lt))
digits-head (suc fuel) n out lt = elim (Bool-cases (ltb n 10)) [
  | inl small ↦ (n, out, ltb→lt n 10 small, rw small)
  | inr large ↦
      rw large
        (digits-head fuel (n / 10) ((b'0' + n % 10) ∷ out) (omega (arith, pow-suc 10 (suc fuel))))
]

parse_int-digit :
    (d : ℕ) (s : Bytes)
    → d < 10
    → parse_int ((b'0' + d) ∷ s) ≡ signed false (parse_digits ((b'0' + d) ∷ s) 0)
unfolding parse_int
parse_int-digit d s h = ground arith

parse_int-digits :
    (t : Bytes) (n d : ℕ) (s : Bytes)
    → t ≡ (b'0' + d) ∷ s
    → d < 10
    → parse_digits t 0 ≡ some n
    → n < 2 ^ 63
    → parse_int t ≡ some (pos n)
parse_int-digits t n d s e h p fits =
    rw e (parse_int-digit d s h ∙ rw (rw e at p) (unfold signed in ground arith))

-- Every number that an int64 holds is read back from its decimal print.
pub parse_int-format : (n : ℕ) → n < 2 ^ 63 → parse_int (format n) ≡ some (pos n)
unfolding format
parse_int-format n h =
    let (d, s, small, e) = digits-head 18 n [] (omega arith) in
    parse_int-digits (digits 19 n []) n d s e small
      (parse_digits-digits 18 n [] (omega arith) ∙ unfold parse_digits in refl) h
