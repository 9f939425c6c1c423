-- ===== src/Encoding/Int.antt =====
-- The integers, and Go's int64 with its wrap-around, as server.go uses it for time.Duration.
use goat.Base.{ℕ, ◌-◌, ◌*◌, ◌%◌, ◌^◌, ◌≤◌, ◌<◌, ◌≡◌, arith, ltb, if◌then◌else◌}

-- `negsuc n` is -(n + 1).
pub data ℤ : Type 0 where
  pos : ℕ → ℤ
  negsuc : ℕ → ℤ

-- The 64-bit pattern of an integer, and the int64 that a pattern below 2 ^ 64 stands for.
unfoldable pub to_word : ℤ → ℕ
to_word (pos n) = n % 2 ^ 64
to_word (negsuc n) = 2 ^ 64 - 1 - n % 2 ^ 64

unfoldable pub of_word : ℕ → ℤ
of_word w = if ltb w (2 ^ 63) then pos w else negsuc (2 ^ 64 - 1 - w)

-- `a * b` at type int64
unfoldable pub mul64 : ℤ → ℤ → ℤ
unfolding to_word of_word
mul64 a b = of_word (to_word a * to_word b % 2 ^ 64)

-- A product that fits does not wrap around.
pub mul64-pos :
    (a b : ℕ) → a < 2 ^ 63 → b < 2 ^ 63 → a * b < 2 ^ 63 → mul64 (pos a) (pos b) ≡ pos (a * b)
unfolding mul64
mul64-pos a b ha hb h = ground arith

-- One that lies in the upper half of the words is read as a negative number.
pub mul64-neg :
    (a b : ℕ)
    → a < 2 ^ 63
    → b < 2 ^ 63
    → 2 ^ 63 ≤ a * b
    → a * b < 2 ^ 64
    → mul64 (pos a) (pos b) ≡ negsuc (2 ^ 64 - 1 - a * b)
unfolding mul64
mul64-neg a b ha hb h k = ground arith
