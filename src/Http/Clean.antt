-- ===== src/Http/Clean.antt =====
-- The cleaner of http.go: which connections a tick removes.
use goat.Base.{
  ℕ, suc, ◌≤◌, ◌≡◌, refl, sym, ◌∙◌, ap, subst, inl, inr, Bool, true, false, ◌&&◌, Option, none,
  some, [], ◌∷◌, Map, lookup, insert, lookup-insert_self, Bytes, Bytes_eq, bytes_eq_iff, ◌==◌,
  arith, if◌then◌else◌, Bool-cases, Option-cases, is_some,
}
use goat.Chan.{done}
use goat.Http.{
  set_object, new_object, GoatOverHttp, retrieve, is_stale, clean_found, clean_each,
  connection_cleaner,
}
use goat.Http.Table.{IsSound, unregister_locked-Removed, retrieve-IsSound}

-- Whether the connection of an address has been idle for as long as the timeout.
abbrev stale_in : ℕ → GoatOverHttp → Option ℕ → Bool
stale_in now g none = false
stale_in now g (some a) = is_stale now g a

abbrev pub idle : ℕ → GoatOverHttp → Bytes → Bool
idle now g id = stale_in now g (lookup id g.conns)

-- What is left where the addresses for which `goes` holds were removed, if they were idle.
abbrev Cleaned : ℕ → (Bytes → Bool) → GoatOverHttp → GoatOverHttp → Type 0
Cleaned now goes g g' =
    IsSound g'
    × ((j : Bytes)
        → lookup j g'.conns ≡ (if goes j && idle now g j then none else lookup j g.conns))
    × ((b : ℕ) → is_stale now g' b ≡ is_stale now g b)

stale_in-ext :
    (now : ℕ) (g g' : GoatOverHttp)
    → ((b : ℕ) → is_stale now g' b ≡ is_stale now g b)
    → (o : Option ℕ) → stale_in now g' o ≡ stale_in now g o
stale_in-ext now g g' h none = refl
stale_in-ext now g g' h (some a) = h a

idle-same :
    (now : ℕ) (g : GoatOverHttp) (id j : Bytes) → id == j ≡ true → idle now g j ≡ idle now g id
idle-same now g id j t = ap (idle now g) (sym ((bytes_eq_iff id j).0 t))

-- A connection that is not idle stays.
stays :
    (now : ℕ) (id j : Bytes) (g : GoatOverHttp)
    → idle now g id ≡ false
    → lookup j g.conns ≡ (if (id == j) && idle now g j then none else lookup j g.conns)
stays now id j g f = elim (Bool-cases (id == j)) [
  | inl t ↦ let e : idle now g j ≡ false = idle-same now g id j t ∙ f in rw t (rw e refl)
  | inr n ↦ rw n refl
]

goes :
    (now : ℕ) (id j : Bytes) (g : GoatOverHttp) (x : Option ℕ)
    → idle now g id ≡ true
    → x ≡ (if id == j then none else lookup j g.conns)
    → x ≡ (if (id == j) && idle now g j then none else lookup j g.conns)
goes now id j g x t h = elim (Bool-cases (id == j)) [
  | inl p ↦
      let e : idle now g j ≡ true = idle-same now g id j p ∙ t in
      let x_none : x ≡ none = h ∙ rw p refl in rw p (rw e x_none)
  | inr n ↦ let x_same : x ≡ lookup j g.conns = h ∙ rw n refl in rw n x_same
]

clean_found-stale :
    (now : ℕ) (id : Bytes) (a : ℕ) (g : GoatOverHttp)
    → IsSound g
    → lookup id g.conns ≡ some a
    → is_stale now g a ≡ true
    → (g' : GoatOverHttp) × (clean_found now g (some a) ≡ done g') × Cleaned now (λ j. id == j) g g'
clean_found-stale now id a g s k t =
    let (g', e, r) = unregister_locked-Removed id g s in
    (
      g',
      rw t (rw ((s id a k).1) e),
      (
        r.0,
        (λ j. goes now id j g _ (rw k t) (r.1 j)),
        λ b. unfold is_stale in rw (r.2 b) (rw r.3 refl),
      ),
    )

clean_found-Cleaned :
    (now : ℕ) (id : Bytes) (g : GoatOverHttp)
    → IsSound g
    → (g' : GoatOverHttp) × (clean_found now g (lookup id g.conns) ≡ done g')
      × Cleaned now (λ j. id == j) g g'
clean_found-Cleaned now id g s = elim (Option-cases (lookup id g.conns)) [
  | inl n ↦ (g, rw n refl, (s, (λ j. stays now id j g (rw n refl)), λ b. refl))
  | inr (a, k) ↦ elim (Bool-cases (is_stale now g a)) [
    | inl t ↦ let (g', e, c) = clean_found-stale now id a g s k t in (g', rw k e, c)
    | inr f ↦ (g, rw k (rw f refl), (s, (λ j. stays now id j g (rw k f)), λ b. refl))
  ]
]

-- One address, then the rest.
then_rest :
    (p r i i₁ : Bool) (o o₁ x : Option ℕ)
    → o₁ ≡ (if p && i then none else o)
    → x ≡ (if r && i₁ then none else o₁)
    → (o₁ ≡ o → i₁ ≡ i)
    → x ≡ (if (if p then true else r) && i then none else o)
then_rest true true true true o o₁ x h h₁ same = h₁
then_rest true true true false o o₁ x h h₁ same = h₁ ∙ h
then_rest true false true i₁ o o₁ x h h₁ same = h₁ ∙ h
then_rest true true false true o o₁ x h h₁ same = let e = same h in cc
then_rest true true false false o o₁ x h h₁ same = h₁ ∙ h
then_rest true false false i₁ o o₁ x h h₁ same = h₁ ∙ h
then_rest false false i i₁ o o₁ x h h₁ same = h₁ ∙ h
then_rest false true true true o o₁ x h h₁ same = h₁
then_rest false true false false o o₁ x h h₁ same = h₁ ∙ h
then_rest false true true false o o₁ x h h₁ same = let e = same h in cc
then_rest false true false true o o₁ x h h₁ same = let e = same h in cc

is_some-if :
    (p : Bool) (a : ℕ) (o : Option ℕ)
    → (if p then true else is_some o) ≡ is_some (if p then some a else o)
is_some-if true a o = refl
is_some-if false a o = refl

Cleaned-trans :
    (now : ℕ) (id : Bytes) (a : ℕ) (rest : Map Bytes ℕ) (g g₁ g' : GoatOverHttp)
    → Cleaned now (λ j. id == j) g g₁
    → Cleaned now (λ j. is_some (lookup j rest)) g₁ g'
    → Cleaned now (λ j. is_some (lookup j ((id, a) ∷ rest))) g g'
unfolding lookup
Cleaned-trans now id a rest g g₁ g' c d = (
  d.0,
  (λ j.
      then_rest (id == j) (is_some (lookup j rest)) (idle now g j) (idle now g₁ j)
        (lookup j g.conns) (lookup j g₁.conns) (lookup j g'.conns) (c.1 j) (d.1 j)
        (λ e. stale_in-ext now g g₁ c.2 (lookup j g₁.conns) ∙ ap (stale_in now g) e)
      ∙ ap (λ b. if b && idle now g j then none else lookup j g.conns)
          (is_some-if (id == j) a (lookup j rest))),
  λ b. d.2 b ∙ c.2 b,
)

clean_each-Cleaned :
    (now : ℕ) (es : Map Bytes ℕ) (g : GoatOverHttp)
    → IsSound g
    → (g' : GoatOverHttp) × (clean_each now es g ≡ done g')
      × Cleaned now (λ j. is_some (lookup j es)) g g'
unfolding clean_each
clean_each-Cleaned now [] g s = (g, refl, (s, (λ j. unfold lookup in refl), λ b. refl))
clean_each-Cleaned now ((id, a) ∷ rest) g s =
    let (g₁, e, c) = clean_found-Cleaned now id g s in
    let (g', e', d) = clean_each-Cleaned now rest g₁ c.0 in
    (g', rw (e, clean_each) e', Cleaned-trans now id a rest g g₁ g' c d)

listed :
    (now : ℕ) (g : GoatOverHttp) (o : Option ℕ)
    → (if is_some o && stale_in now g o then none else o) ≡ (if stale_in now g o then none else o)
listed now g none = refl
listed now g (some a) = refl

pub connection_cleaner-IsSound :
    (now : ℕ) (g : GoatOverHttp)
    → IsSound g
    → (g' : GoatOverHttp) × (connection_cleaner now g ≡ done g')
      × IsSound g'
      × ((j : Bytes) → lookup j g'.conns ≡ (if idle now g j then none else lookup j g.conns))
unfolding connection_cleaner
connection_cleaner-IsSound now g s =
    let (g', e, c) = clean_each-Cleaned now g.conns g s in
    (g', e, c.0, λ j. c.1 j ∙ listed now g (lookup j g.conns))

abbrev added : Bytes → GoatOverHttp → GoatOverHttp
added id g = record (set_object g.next_object (new_object id) g) {
  conns = insert id g.next_object g.conns;
  next_object = suc g.next_object;
}

retrieve-none :
    (id : Bytes) (g : GoatOverHttp)
    → lookup id g.conns ≡ none
    → retrieve id g ≡ (added id g, g.next_object, true)
unfolding retrieve
retrieve-none id g n = rw (n, retrieve) refl

added-idle :
    (now : ℕ) (id : Bytes) (g : GoatOverHttp)
    → g.connection_timeout ≤ now
    → idle now (added id g) id ≡ true
unfolding is_stale
added-idle now id g late = rw (lookup-insert_self id g.next_object g.conns) (ground arith)

-- At a table whose entries are open connections to their addresses, a connection that is new, and on
-- which nothing was read or written, is removed by the next tick, if the clock shows at least the
-- timeout.
pub connection_cleaner-retrieve :
    (now : ℕ) (id : Bytes) (g : GoatOverHttp)
    → IsSound g
    → lookup id g.conns ≡ none
    → g.connection_timeout ≤ now
    → (g' : GoatOverHttp) × (connection_cleaner now (retrieve id g).0 ≡ done g')
      × (lookup id g'.conns ≡ none)
connection_cleaner-retrieve now id g s n late =
    let (sound, found) = retrieve-IsSound id g s in
    let (g', e, _, left) = connection_cleaner-IsSound now (retrieve id g).0 sound in
    let old : idle now (retrieve id g).0 id ≡ true =
      subst (λ x. idle now x.0 id ≡ true) (sym (retrieve-none id g n)) (added-idle now id g late) in
    (g', e, left id ∙ rw old refl)
