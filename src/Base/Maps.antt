-- ===== src/Base/Maps.antt =====
-- Go maps as association lists: reads, writes and `delete`. An entry list in any order is a map, so
-- what holds of all entry lists holds of every order in which `range` may visit a map.
use mathlib.Core.Path.{◌≡◌, refl, subst}
use mathlib.Core.Option.{Option, none, some}
use mathlib.Core.Logic.{inl, inr}
use mathlib.Core.List.{List, [], ◌∷◌}
use native.Mathlib.Omega.{arith}
use goat.Base.Tests.{if◌then◌else◌, Key, ◌==◌, Bool-cases}
use goat.Base.Lists.{All}

abbrev pub Map {ℓ κ} : Type ℓ → Type κ → Type (ℓ ⊔ κ)
Map K V = List (K × V)

module _ {ℓ κ} {K : Type ℓ} ⦃e : Key K⦄ {V : Type κ} where
  unfoldable pub lookup : K → Map K V → Option V
  lookup at [] = none
  lookup at ((i, v) ∷ m) = let below = lookup at m in if i == at then some v else below

  unfoldable pub delete : K → Map K V → Map K V
  delete k [] = []
  delete k ((j, v) ∷ m) = let rest = delete k m in if j == k then rest else (j, v) ∷ rest

  -- `m[k] = v`: an entry that exists is replaced, a new one joins the list.
  unfoldable pub insert : K → V → Map K V → Map K V
  insert k v [] = (k, v) ∷ []
  insert k v ((j, w) ∷ m) = let rest = insert k v m in if j == k then (k, v) ∷ m else (j, w) ∷ rest

  pub lookup-insert :
      (put at : K) (w : V) (m : Map K V)
      → lookup at (insert put w m) ≡ (if put == at then some w else lookup at m)
  unfolding lookup insert
  lookup-insert put at w [] = refl
  lookup-insert put at w ((i, v) ∷ m) =
      ground (arith, lookup-insert put at w m, e.same_iff put at, e.same_iff i put, e.same_iff i at)

  pub lookup-delete :
      (k j : K) (m : Map K V) → lookup j (delete k m) ≡ (if k == j then none else lookup j m)
  unfolding lookup delete
  lookup-delete k j [] = ground arith
  lookup-delete k j ((i, w) ∷ m) =
      ground (arith, e.same_iff k j, e.same_iff i k, e.same_iff i j, lookup-delete k j m)

  pub lookup-delete_self : (k : K) (m : Map K V) → lookup k (delete k m) ≡ none
  lookup-delete_self k m = rw (lookup-delete k k m, (e.same_iff k k).1 refl)

  pub lookup-insert_self : (k : K) (v : V) (m : Map K V) → lookup k (insert k v m) ≡ some v
  lookup-insert_self k v m = rw (lookup-insert k k v m, (e.same_iff k k).1 refl)

module _ {ℓ κ μ} {K : Type ℓ} ⦃e : Key K⦄ {V : Type κ} where
  pub All-lookup :
      (P : K × V → Type μ) (m : Map K V) (k : K) (v : V) → All P m → lookup k m ≡ some v → P (k, v)
  unfolding lookup
  All-lookup P [] k v ps h = cc
  All-lookup P ((j, w) ∷ m) k v (p, ps) h = elim (Bool-cases (j == k)) [
    | inl t ↦
        let key : j ≡ k = (e.same_iff j k).0 t in
        let h' : some w ≡ some v = rw t at h in
        let found : w ≡ v = cc in subst P (λ i. (key i, found i)) p
    | inr f ↦ All-lookup P m k v ps (rw f at h)
  ]

  pub All-insert :
      (P : K × V → Type μ) (k : K) (v : V) (m : Map K V) → P (k, v) → All P m → All P (insert k v m)
  unfolding insert
  All-insert P k v [] p ps = (p, ps)
  All-insert P k v ((j, w) ∷ m) p (q, qs) = elim (Bool-cases (j == k)) [
    | inl t ↦ rw t (p, qs)
    | inr f ↦ rw f (q, All-insert P k v m p qs)
  ]

  pub All-delete : (P : K × V → Type μ) (k : K) (m : Map K V) → All P m → All P (delete k m)
  unfolding delete
  All-delete P k [] ps = tt
  All-delete P k ((j, w) ∷ m) (q, qs) = elim (Bool-cases (j == k)) [
    | inl t ↦ rw t (All-delete P k m qs)
    | inr f ↦ rw f (q, All-delete P k m qs)
  ]
