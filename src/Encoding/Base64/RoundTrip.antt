-- ===== src/Encoding/Base64/RoundTrip.antt =====
-- Decoding what was encoded, for base64.URLEncoding as internal/util.go uses it.
use goat.Base.{
  ℕ, ◌+◌, ◌*◌, ◌/◌, ◌%◌, ◌<◌, ◌≡◌, refl, ap, ◌∙◌, false, some, [], ◌∷◌, arith, nat_eq, Bytes, All,
}
use goat.Encoding.Base64.{
  digit_char, char_digit, encode, ◌>>=◌, skip_breaks, decode_end, decode_quads, decode,
}

char_digit-digit_char : (d : ℕ) → d < 64 → char_digit (digit_char d) ≡ some d
unfolding char_digit digit_char
char_digit-digit_char d h = ground arith

digit_char-plain :
    (d : ℕ)
    → d < 64
    → (nat_eq (digit_char d) b'=' ≡ false)
      × (nat_eq (digit_char d) b'\n' ≡ false)
      × (nat_eq (digit_char d) b'\r' ≡ false)
unfolding digit_char
digit_char-plain d h = ground arith

skip_breaks-digit :
    (d : ℕ) (s : Bytes) → d < 64 → skip_breaks (digit_char d ∷ s) ≡ digit_char d ∷ skip_breaks s
unfolding skip_breaks
skip_breaks-digit d s h = ground (arith, digit_char-plain d h)

abbrev pub IsByte : ℕ → Type 0
IsByte b = b < 256

skip_breaks-encode : (s : Bytes) → All IsByte s → skip_breaks (encode s) ≡ encode s
unfolding encode
skip_breaks-encode [] _ = unfold skip_breaks in refl
skip_breaks-encode (a ∷ []) h =
    rw (skip_breaks-digit (a / 4) _ (omega arith))
      (rw (skip_breaks-digit (a % 4 * 16) _ (omega arith)) (unfold skip_breaks in refl))
skip_breaks-encode (a ∷ b ∷ []) h = rw (skip_breaks-digit (a / 4) _ (omega arith)) (
    rw (skip_breaks-digit (a % 4 * 16 + b / 16) _ (omega arith))
      (rw (skip_breaks-digit (b % 16 * 4) _ (omega arith)) (unfold skip_breaks in refl)))
skip_breaks-encode (a ∷ b ∷ c ∷ s) (ha, (hb, (hc, hs))) =
    rw (skip_breaks-digit (a / 4) _ (omega arith)) (
      rw (skip_breaks-digit (a % 4 * 16 + b / 16) _ (omega arith)) (
        rw (skip_breaks-digit (b % 16 * 4 + c / 64) _ (omega arith))
          (rw (skip_breaks-digit (c % 64) _ (omega arith)) (rw (skip_breaks-encode s hs)))))

decode_quads_step :
    (x y z w : ℕ) (rest : Bytes)
    → x < 64
    → y < 64
    → z < 64
    → w < 64
    → decode_quads (digit_char x ∷ digit_char y ∷ digit_char z ∷ digit_char w ∷ rest) ≡ (
        decode_quads rest >>= λ more.
        some ((x * 4 + y / 16) ∷ (y % 16 * 16 + z / 4) ∷ (z % 4 * 64 + w) ∷ more))
unfolding decode_quads
decode_quads_step x y z w [] hx hy hz hw = rw (
  (digit_char-plain w hw).0,
  char_digit-digit_char x hx,
  char_digit-digit_char y hy,
  char_digit-digit_char z hz,
  char_digit-digit_char w hw,
)
decode_quads_step x y z w (t ∷ rest) hx hy hz hw = rw (
  char_digit-digit_char x hx,
  char_digit-digit_char y hy,
  char_digit-digit_char z hz,
  char_digit-digit_char w hw,
)

join_bytes :
    (a b c : ℕ)
    → a < 256
    → b < 256
    → c < 256
    → (a / 4 * 4 + (a % 4 * 16 + b / 16) / 16 ≡ a)
      × ((a % 4 * 16 + b / 16) % 16 * 16 + (b % 16 * 4 + c / 64) / 4 ≡ b)
      × ((b % 16 * 4 + c / 64) % 4 * 64 + c % 64 ≡ c)
join_bytes a b c ha hb hc = omega arith

decode_quads_one :
    (x y : ℕ)
    → x < 64
    → y < 64
    → decode_quads (digit_char x ∷ digit_char y ∷ b'=' ∷ b'=' ∷ []) ≡ some ((x * 4 + y / 16) ∷ [])
unfolding decode_quads decode_end
decode_quads_one x y hx hy = rw (char_digit-digit_char x hx, char_digit-digit_char y hy)

decode_quads_two :
    (x y z : ℕ)
    → x < 64
    → y < 64
    → z < 64
    → decode_quads (digit_char x ∷ digit_char y ∷ digit_char z ∷ b'=' ∷ [])
      ≡ some ((x * 4 + y / 16) ∷ (y % 16 * 16 + z / 4) ∷ [])
unfolding decode_quads decode_end
decode_quads_two x y z hx hy hz = rw (
  (digit_char-plain z hz).0,
  char_digit-digit_char x hx,
  char_digit-digit_char y hy,
  char_digit-digit_char z hz,
)

decode_quads-encode : (s : Bytes) → All IsByte s → decode_quads (encode s) ≡ some s
unfolding encode
decode_quads-encode [] _ = unfold decode_quads in refl
decode_quads-encode (a ∷ []) h =
    decode_quads_one (a / 4) (a % 4 * 16) (omega arith) (omega arith)
    ∙ ap (λ (n : ℕ). some (n ∷ [])) (omega arith)
decode_quads-encode (a ∷ b ∷ []) h =
    decode_quads_two (a / 4) (a % 4 * 16 + b / 16) (b % 16 * 4) (omega arith) (omega arith)
      (omega arith)
    ∙ ground arith
decode_quads-encode (a ∷ b ∷ c ∷ s) (ha, (hb, (hc, hs))) =
    let e = join_bytes a b c ha hb hc in
    rw (
      decode_quads_step (a / 4) (a % 4 * 16 + b / 16) (b % 16 * 4 + c / 64) (c % 64) (encode s)
          (omega arith) (omega arith) (omega arith) (omega arith),
      decode_quads-encode s hs,
      e.0,
      e.1,
      e.2,
    )

-- Decoding the base64 text of any byte string gives the string back.
pub decode-encode : (s : Bytes) → All IsByte s → decode (encode s) ≡ some s
unfolding decode
decode-encode s h = rw (skip_breaks-encode s h, decode_quads-encode s h)
