-- ===== src/Http/Table.antt =====
-- The table of connections of http.go: what is in it is open, and leaves it before it is closed.
use goat.Base.{
  ℕ, suc, ◌<◌, ◌≡◌, ◌≢◌, refl, sym, ◌∙◌, ap, inl, inr, true, false, none, some, lookup, insert,
  delete, lookup-insert, lookup-delete, lookup-insert_self, Bytes, Bytes_eq, bytes_eq_iff, ◌==◌,
  nat_eq, nat_eq_iff, arith, if◌then◌else◌, Bool-cases, Option-cases,
}
use goat.Chan.{done}
use goat.Http.{GoatOverHttp, set_object, new_object, retrieve, close_conn, unregister_locked}

-- What the table holds under an address is an open connection to that address.
abbrev pub IsSound : GoatOverHttp → Type 0
IsSound g =
    (id : Bytes) (a : ℕ)
    → lookup id g.conns ≡ some a
    → ((g.objects a).closed ≡ false) × ((g.objects a).write_addr ≡ id) × (a < g.next_object)

-- An address leaves the table; times stay.
abbrev pub Removed : Bytes → GoatOverHttp → GoatOverHttp → Type 0
Removed id g g' =
    IsSound g'
    × ((j : Bytes) → lookup j g'.conns ≡ (if id == j then none else lookup j g.conns))
    × ((b : ℕ) → (g'.objects b).last_activity ≡ (g.objects b).last_activity)
    × (g'.connection_timeout ≡ g.connection_timeout)

abbrev pub without : Bytes → GoatOverHttp → GoatOverHttp
without id g = record g { conns = delete id g.conns }

abbrev pub closing : ℕ → GoatOverHttp → GoatOverHttp
closing a g = set_object a (record (g.objects a) { closed = true }) g

lookup-without :
    (id j : Bytes) (a : ℕ) (g : GoatOverHttp)
    → lookup j (delete id g.conns) ≡ some a
    → (id ≢ j) × (lookup j g.conns ≡ some a)
lookup-without id j a g h = elim (Bool-cases (id == j)) [
  | inl t ↦
      let gone : (if id == j then none else lookup j g.conns) ≡ none = rw t refl in
      let e : none ≡ some a = sym (lookup-delete id j g.conns ∙ gone) ∙ h in absurd (cc)
  | inr f ↦
      let stays : (if id == j then none else lookup j g.conns) ≡ lookup j g.conns = rw f refl in
      (
        (λ same. let t = (bytes_eq_iff id j).1 same in cc),
        sym (lookup-delete id j g.conns ∙ stays) ∙ h,
      )
]

without-IsSound : (id : Bytes) (g : GoatOverHttp) → IsSound g → IsSound (without id g)
without-IsSound id g s j a h = s j a (lookup-without id j a g h).1

closing-IsSound :
    (id : Bytes) (a : ℕ) (g : GoatOverHttp)
    → IsSound g
    → lookup id g.conns ≡ some a
    → IsSound (without id (closing a g))
closing-IsSound id a g s found j b h =
    let (apart, found') = lookup-without id j b g h in
    let (open_b, addr_b, low_b) = s j b found' in
    let differ : a ≢ b =
      λ same. apart (sym (s id a found).1 ∙ ap (λ x. (g.objects x).write_addr) same ∙ addr_b) in
    let test : nat_eq a b ≡ false = ground arith in (rw test open_b, rw test addr_b, low_b)

closing-last_activity :
    (a b : ℕ) (g : GoatOverHttp)
    → ((closing a g).objects b).last_activity ≡ (g.objects b).last_activity
closing-last_activity a b g = elim (Bool-cases (nat_eq a b)) [
  | inl t ↦ rw t (ap (λ x. (g.objects x).last_activity) ((nat_eq_iff a b).0 t))
  | inr f ↦ rw f refl
]

unregister_locked-none :
    (id : Bytes) (g : GoatOverHttp)
    → lookup id g.conns ≡ none
    → unregister_locked id g ≡ done (without id g)
unfolding unregister_locked
unregister_locked-none id g n = rw (n, unregister_locked) refl

pub unregister_locked-some :
    (id : Bytes) (a : ℕ) (g : GoatOverHttp)
    → lookup id g.conns ≡ some a
    → (g.objects a).closed ≡ false
    → unregister_locked id g ≡ done (without id (closing a g))
unfolding unregister_locked close_conn
unregister_locked-some id a g k unclosed = rw (k, unregister_locked) (rw unclosed refl)

-- Removing an address from a sound table closes no channel twice.
pub unregister_locked-Removed :
    (id : Bytes) (g : GoatOverHttp)
    → IsSound g
    → (g' : GoatOverHttp) × (unregister_locked id g ≡ done g') × Removed id g g'
unregister_locked-Removed id g s = elim (Option-cases (lookup id g.conns)) [
  | inl n ↦ (
    without id g,
    unregister_locked-none id g n,
    (without-IsSound id g s, (λ j. lookup-delete id j g.conns), (λ b. refl), refl),
  )
  | inr (a, k) ↦ (
    without id (closing a g),
    unregister_locked-some id a g k (s id a k).0,
    (
      closing-IsSound id a g s k,
      (λ j. lookup-delete id j g.conns),
      (λ b. closing-last_activity a b g),
      refl,
    ),
  )
]

adding-IsSound :
    (id : Bytes) (g : GoatOverHttp)
    → IsSound g
    → IsSound (record (set_object g.next_object (new_object id) g) {
      conns = insert id g.next_object g.conns;
      next_object = suc g.next_object;
    })
adding-IsSound id g s j b h = elim (Bool-cases (id == j)) [
  | inl t ↦
      let new_ : (if id == j then some g.next_object else lookup j g.conns) ≡ some g.next_object =
        rw t refl in
      let e : some g.next_object ≡ some b =
        sym (lookup-insert id j g.next_object g.conns ∙ new_) ∙ h in
      let same : g.next_object ≡ b = cc in
      let test : nat_eq g.next_object b ≡ true = (nat_eq_iff g.next_object b).1 same in
      (rw test refl, rw test ((bytes_eq_iff id j).0 t), omega arith)
  | inr f ↦
      let stays : (if id == j then some g.next_object else lookup j g.conns) ≡ lookup j g.conns =
        rw f refl in
      let (open_b, addr_b, low_b) =
        s j b (sym (lookup-insert id j g.next_object g.conns ∙ stays) ∙ h) in
      let test : nat_eq g.next_object b ≡ false = ground arith in
      (rw test open_b, rw test addr_b, omega arith)
]

-- The table stays sound when a connection is looked up, which is in it afterwards.
pub retrieve-IsSound :
    (id : Bytes) (g : GoatOverHttp)
    → IsSound g
    → IsSound (retrieve id g).0 × (lookup id (retrieve id g).0.conns ≡ some (retrieve id g).1)
unfolding retrieve
retrieve-IsSound id g s = elim (Option-cases (lookup id g.conns)) [
  | inl n ↦ rw (n, retrieve) (adding-IsSound id g s, lookup-insert_self id g.next_object g.conns)
  | inr (a, k) ↦ rw (k, retrieve) (s, k)
]
