-- ===== src/Encoding/Method/RoundTrip.antt =====
-- parseRawMethod of server.go against the names that it takes apart.
use goat.Base.{
  sym, subst, ℕ, suc, ◌≡◌, ◌≢◌, ◌↔◌, refl, ap, ◌∙◌, inl, inr, Option, none, some, [], ◌∷◌, ◌++◌,
  arith, Option-cases, length, Bytes, All,
}
use goat.Encoding.Method.{
  full_method, last_slash, take, drop, strip_slash, split_method, parse_raw_method,
}

abbrev pub HasNoSlash : Bytes → Type 0
HasNoSlash = All (λ c. c ≢ b'/')

last_slash-none : (s : Bytes) → HasNoSlash s → last_slash s ≡ none
unfolding last_slash
last_slash-none [] _ = refl
last_slash-none (c ∷ s) (h, hs) = ground (arith, last_slash-none s hs)

last_slash-append : (s m : Bytes) → HasNoSlash m → last_slash (s ++ b'/' ∷ m) ≡ some (length s)
unfolding last_slash
last_slash-append [] m h = rw (last_slash-none m h)
last_slash-append (c ∷ s) m h = rw (last_slash-append s m h)

take-length : (s t : Bytes) → take (length s) (s ++ t) ≡ s
unfolding take
take-length [] t = refl
take-length (c ∷ s) t = ap (◌∷◌ c) (take-length s t)

drop-length : (s : Bytes) (c : ℕ) (t : Bytes) → drop (suc (length s)) (s ++ c ∷ t) ≡ t
unfolding drop
drop-length [] c t = refl
drop-length (b ∷ s) c t = drop-length s c t

last_slash-none-inv : (s : Bytes) → last_slash s ≡ none → HasNoSlash s
unfolding last_slash
last_slash-none-inv [] e = tt
last_slash-none-inv (c ∷ s) e = ground (arith, last_slash-none-inv s)

last_slash-split :
    (s : Bytes) (p : ℕ)
    → last_slash s ≡ some p
    → (a m : Bytes) × (s ≡ a ++ b'/' ∷ m) × (length a ≡ p) × HasNoSlash m
unfolding last_slash
last_slash-split [] p e = cc
last_slash-split (c ∷ s) p e = elim (Option-cases (last_slash s)) [
  | inl n ↦ ([], s, ground arith, ground arith, last_slash-none-inv s n)
  | inr (i, n) ↦
      let (a, m, split, at, free) = last_slash-split s i n in
      (c ∷ a, m, ap (◌∷◌ c) split, ground arith, free)
]

split_method-append : (s m : Bytes) → HasNoSlash m → split_method (s ++ b'/' ∷ m) ≡ some (s, m)
unfolding split_method
split_method-append s m h =
    rw (last_slash-append s m h, split_method) (rw (take-length s (b'/' ∷ m), drop-length s b'/' m))

split_method-split :
    (sm s m : Bytes) → split_method sm ≡ some (s, m) → (sm ≡ s ++ b'/' ∷ m) × HasNoSlash m
unfolding split_method
split_method-split sm s m e = elim (Option-cases (last_slash sm)) [
  | inl n ↦ absurd (cc)
  | inr (p, n) ↦
      let (a, b, split, _, free) = last_slash-split sm p n in
      let q : ◌≡◌ {A = Option (Bytes × Bytes)} (some (s, m)) (some (a, b)) =
        sym e
        ∙ subst (λ t. split_method t ≡ some (a, b)) (sym split) (split_method-append a b free) in
      let es : s ≡ a = cc in let em : m ≡ b = cc in (cc, subst HasNoSlash (sym em) free)
]

-- A method name is parsed into `s` and `m` exactly when, after one leading slash, it reads `s/m`
-- and `m` has no slash.
pub parse_raw_method_iff :
    (sm s m : Bytes)
    → (parse_raw_method sm ≡ some (s, m)) ↔ ((strip_slash sm ≡ s ++ b'/' ∷ m) × HasNoSlash m)
unfolding parse_raw_method
parse_raw_method_iff sm s m =
    (split_method-split (strip_slash sm) s m, λ h. rw h.0 (split_method-append s m h.1))

-- The full name of a method that has no slash is parsed back into its parts.
pub parse_raw_method-full_method :
    (s m : Bytes) → HasNoSlash m → parse_raw_method (full_method s m) ≡ some (s, m)
parse_raw_method-full_method s m h =
    (parse_raw_method_iff (full_method s m) s m).1 (unfold full_method strip_slash in refl, h)
