-- ===== src/Http/Runs.antt =====
-- http.go from operation to operation, each of which is through before the next one starts.
use goat.Base.{
  ℕ, ◌≡◌, refl, ap, ◌∙◌, inl, inr, true, Option, none, some, List, [], ◌∷◌, Bytes, Bytes_eq, lookup,
  lookup-delete_self, nat_eq, nat_eq_iff, Bool-cases,
}
use goat.Rpc.{Rpc, Err, Result}
use goat.Chan.{Exec, done, ◌>>=◌}
use goat.Http.{
  GoatOverHttp, connection_cleaner, bump_activity, read, Failed, request, write, Served,
  bad_request, serves, serve_http, hand_over, new_connection,
}
use goat.Http.Table.{IsSound, unregister_locked-some, without, closing}

-- A request comes in; the cleaner ticks; a connection, which its holder may have kept, is read from
-- or written to; one is asked for.
pub data Use : Type 0 where
  posts : Option (Result Bytes) → Use
  ticks : ℕ → Use
  reads : ℕ → ℕ → Option Rpc → Use
  writes : ℕ → ℕ → Option Failed → Use
  connects : Bytes → Use

bump_activity-closed :
    (now a b : ℕ) (g : GoatOverHttp)
    → ((bump_activity now a g).objects b).closed ≡ (g.objects b).closed
unfolding bump_activity
bump_activity-closed now a b g = elim (Bool-cases (nat_eq a b)) [
  | inl t ↦ rw t (ap (λ x. (g.objects x).closed) ((nat_eq_iff a b).0 t))
  | inr f ↦ rw f refl
]

bump_activity-write_addr :
    (now a b : ℕ) (g : GoatOverHttp)
    → ((bump_activity now a g).objects b).write_addr ≡ (g.objects b).write_addr
unfolding bump_activity
bump_activity-write_addr now a b g = elim (Bool-cases (nat_eq a b)) [
  | inl t ↦ rw t (ap (λ x. (g.objects x).write_addr) ((nat_eq_iff a b).0 t))
  | inr f ↦ rw f refl
]

bump_activity-IsSound : (now a : ℕ) (g : GoatOverHttp) → IsSound g → IsSound (bump_activity now a g)
bump_activity-IsSound now a g s id b h =
    let (unclosed, addr, low) = s id b (unfold bump_activity in h) in
    (
      bump_activity-closed now a b g ∙ unclosed,
      bump_activity-write_addr now a b g ∙ addr,
      unfold bump_activity in low,
    )

module _ (decode : Bytes → Result Rpc) (source_to_address : Bytes → Result Bytes) where
  abbrev post_served : GoatOverHttp → Served → Exec GoatOverHttp
  post_served g (bad_request m) = done g
  post_served g (serves g₁ rpc a new) = hand_over a g₁

  unfoldable pub use_http : Use → GoatOverHttp → Exec GoatOverHttp
  unfolding serve_http hand_over connection_cleaner read write new_connection
  use_http (posts body) g = post_served g (serve_http decode source_to_address body g)
  use_http (ticks now) g = connection_cleaner now g
  use_http (reads now a rpc) g = done (read now a rpc g).0
  use_http (writes now a f) g = write now a f g >>= λ r. done r.0
  use_http (connects destination) g = done (new_connection destination g).0

  unfoldable pub run_http : List Use → GoatOverHttp → Exec GoatOverHttp
  unfolding use_http
  run_http [] g = done g
  run_http (u ∷ us) g = use_http u g >>= run_http us

  abbrev Fine : Exec GoatOverHttp → Type 0
  Fine x = (g' : GoatOverHttp) × (x ≡ done g') × IsSound g'

-- A Write that fails closes the connection that the table holds under its address, which is another
-- one where its own has left the table.
pub write-closes :
    (now a b : ℕ) (e : Err) (g : GoatOverHttp)
    → IsSound g
    → lookup (g.objects a).write_addr g.conns ≡ some b
    → (g' : GoatOverHttp) × (write now a (some (request e)) g ≡ done (g', some e))
      × ((g'.objects b).closed ≡ true)
      × (lookup (g.objects a).write_addr g'.conns ≡ none)
unfolding write
write-closes now a b e g s found =
    let id = (g.objects a).write_addr in
    let g₁ = bump_activity now a g in
    let found₁ : lookup id g₁.conns ≡ some b = unfold bump_activity in found in
    let gone =
      unregister_locked-some id b g₁ found₁ (bump_activity-IsSound now a g s id b found₁).0 in
    let same : nat_eq b b ≡ true = (nat_eq_iff b b).1 refl in
    (
      without id (closing b g₁),
      rw (bump_activity-write_addr now a a g) (rw gone refl),
      rw same refl,
      lookup-delete_self id g₁.conns,
    )
