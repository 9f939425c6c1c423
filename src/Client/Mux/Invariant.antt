-- ===== src/Client/Mux/Invariant.antt =====
-- What holds of the multiplexer of internal/client/multiplexer.go between two operations.
use goat.Base.{
  subst, All-insert, All-delete, All-lookup, ℕ, suc, ◌≤◌, ◌<◌, ◌≡◌, ◌≢◌, refl, sym, ap, ◌∙◌, inl,
  inr, true, false, some, [], ◌∷◌, arith, ℕ_eq, Map, lookup, insert, delete, length, All,
  Option-cases, Bool-cases, nat_eq, nat_eq_iff,
}
use goat.Rpc.{Rpc, Err}
use goat.Chan.{Chan, done, blocked, make, send, close, Store, update, update_self, update_ne}
use goat.Client.Mux.{
  Mux, new_mux, next_stream_id, register_handler, close_at, unregister_handler, close_all,
  close_error,
}

-- An entry of the handler map: its channel was handed out, is open, holds at most one Rpc, and
-- nothing but Rpcs with the entry's id.
pub record IsServed (next : ℕ) (chans : Store Rpc) (e : ℕ × ℕ) : Type 0 where
  pub allocated : e.1 < next
  pub is_open : (chans e.1).closed ≡ false
  pub capacity : (chans e.1).capacity ≡ 1
  pub fits : length (chans e.1).buffer ≤ 1
  pub routed : All (λ (r : Rpc). r.id ≡ e.0) (chans e.1).buffer

-- No entry has the channel `a`; no two entries share one.
abbrev pub Fresh : ℕ → Map ℕ ℕ → Type 0
Fresh a m = All (λ (e : ℕ × ℕ). a ≢ e.1) m

abbrev pub Distinct : Map ℕ ℕ → Type 0
Distinct [] = Unit {0}
Distinct ((id, a) ∷ m) = Fresh a m × Distinct m

pub record Inv (m : Mux) : Type 0 where
  pub served : All (IsServed m.next_chan m.chans) m.handlers
  pub distinct : Distinct m.handlers

pub new_mux-Inv : Inv new_mux
unfolding new_mux
new_mux-Inv = record { served = tt; distinct = tt }

pub served-other :
    (next id b a : ℕ) (chans : Store Rpc) (c : Chan Rpc)
    → b ≢ a
    → IsServed next chans (id, b)
    → IsServed next (update chans a c) (id, b)
served-other next id b a chans c n s = ground arith

-- A write at a channel that no entry has leaves the entries alone.
served-update_fresh :
    (next a : ℕ) (chans : Store Rpc) (c : Chan Rpc) (m : Map ℕ ℕ)
    → Fresh a m
    → All (IsServed next chans) m
    → All (IsServed next (update chans a c)) m
served-update_fresh next a chans c [] f s = tt
served-update_fresh next a chans c ((id, b) ∷ m) (f, fs) (s, ss) =
    (ground arith, served-update_fresh next a chans c m fs ss)

Fresh-lookup : (a b id : ℕ) (m : Map ℕ ℕ) → Fresh a m → lookup id m ≡ some b → a ≢ b
unfolding lookup
Fresh-lookup a b id [] f e = cc
Fresh-lookup a b id ((j, d) ∷ m) (f, fs) e = ground (arith, Fresh-lookup a b id m fs)

Fresh-next :
    (next : ℕ) (chans : Store Rpc) (m : Map ℕ ℕ) → All (IsServed next chans) m → Fresh next m
Fresh-next next chans [] s = tt
Fresh-next next chans ((j, b) ∷ m) (s, ss) = (ground arith, Fresh-next next chans m ss)

served-weaken :
    (next : ℕ) (chans : Store Rpc) (m : Map ℕ ℕ)
    → All (IsServed next chans) m
    → All (IsServed (suc next) chans) m
served-weaken next chans [] s = tt
served-weaken next chans ((j, b) ∷ m) (s, ss) = (ground arith, served-weaken next chans m ss)

Distinct-insert : (id a : ℕ) (m : Map ℕ ℕ) → Fresh a m → Distinct m → Distinct (insert id a m)
unfolding insert
Distinct-insert id a [] f d = (tt, tt)
Distinct-insert id a ((j, b) ∷ m) (f, fs) (d, ds) = elim (Bool-cases (nat_eq j id)) [
  | inl t ↦ rw t (fs, ds)
  | inr n ↦
      rw n (
        All-insert (λ (e : ℕ × ℕ). b ≢ e.1) id a m (λ p. f (sym p)) d,
        Distinct-insert id a m fs ds,
      )
]

Distinct-delete : (id : ℕ) (m : Map ℕ ℕ) → Distinct m → Distinct (delete id m)
unfolding delete
Distinct-delete id [] d = tt
Distinct-delete id ((j, b) ∷ m) (d, ds) = elim (Bool-cases (nat_eq j id)) [
  | inl t ↦ rw t (Distinct-delete id m ds)
  | inr n ↦ rw n (All-delete (λ (e : ℕ × ℕ). b ≢ e.1) id m d, Distinct-delete id m ds)
]

pub next_stream_id-Inv : (m : Mux) → Inv m → Inv (next_stream_id m).1
unfolding next_stream_id
next_stream_id-Inv m v = record { served = v.served; distinct = v.distinct }

pub register_handler-Inv : (id : ℕ) (m : Mux) → Inv m → Inv (register_handler id m)
unfolding register_handler
register_handler-Inv id m v =
    let new = Fresh-next m.next_chan m.chans m.handlers v.served in
    record {
      served =
          All-insert (IsServed (suc m.next_chan) (update m.chans m.next_chan (make 1))) id
            m.next_chan m.handlers (ground arith)
            (served-update_fresh (suc m.next_chan) m.next_chan m.chans (make 1) m.handlers new
              (served-weaken m.next_chan m.chans m.handlers v.served));
      distinct = Distinct-insert id m.next_chan m.handlers new v.distinct;
    }

-- After an entry is deleted no other has its channel.
Fresh-delete : (id a : ℕ) (m : Map ℕ ℕ) → Distinct m → lookup id m ≡ some a → Fresh a (delete id m)
unfolding delete lookup
Fresh-delete id a [] d e = tt
Fresh-delete id a ((j, b) ∷ m) (d, ds) e = elim (Bool-cases (nat_eq j id)) [
  | inl t ↦
      let e' : some b ≡ some a = rw t at e in
      let same : b ≡ a = cc in
      rw t (All-delete (λ (x : ℕ × ℕ). a ≢ x.1) id m (subst (λ c. Fresh c m) same d))
  | inr n ↦
      let rest : lookup id m ≡ some a = rw n at e in
      rw n ((λ p. Fresh-lookup b a id m d rest (sym p)), Fresh-delete id a m ds rest)
]

close_at-open :
    (a : ℕ) (chans : Store Rpc)
    → (chans a).closed ≡ false
    → close_at a chans ≡ done (update chans a (record (chans a) { closed = true }))
unfolding close_at close
close_at-open a chans h = rw h

-- Removing a handler never panics, and keeps the invariant.
pub unregister_handler-Inv :
    (id : ℕ) (m : Mux)
    → Inv m
    → (m' : Mux) × (unregister_handler id m ≡ done m')
      × Inv m'
      × (m'.handlers ≡ delete id m.handlers)
unfolding unregister_handler
unregister_handler-Inv id m v = elim (Option-cases (lookup id m.handlers)) [
  | inl e ↦ (
    record m { handlers = delete id m.handlers },
    rw e,
    record {
      served = All-delete (IsServed m.next_chan m.chans) id m.handlers v.served;
      distinct = Distinct-delete id m.handlers v.distinct;
    },
    refl,
  )
  | inr (a, e) ↦
      let entry = All-lookup (IsServed m.next_chan m.chans) m.handlers id a v.served e in
      let c : Chan Rpc = record (m.chans a) { closed = true } in
      (
        record m { chans = update m.chans a c; handlers = delete id m.handlers },
        rw e (rw (close_at-open a m.chans entry.is_open)),
        record {
          served =
              served-update_fresh m.next_chan a m.chans c (delete id m.handlers)
                (Fresh-delete id a m.handlers v.distinct e)
                (All-delete (IsServed m.next_chan m.chans) id m.handlers v.served);
          distinct = Distinct-delete id m.handlers v.distinct;
        },
        refl,
      )
]

-- The channels of the entries all get closed, and none twice.
close_all-done :
    (next : ℕ) (m : Map ℕ ℕ) (chans : Store Rpc)
    → All (IsServed next chans) m
    → Distinct m
    → (chans' : Store Rpc) × (close_all m chans ≡ done chans')
      × All (λ (e : ℕ × ℕ). (chans' e.1).closed ≡ true) m
      × ((a : ℕ) → Fresh a m → chans' a ≡ chans a)
unfolding close_all
close_all-done next [] chans s d = (chans, refl, tt, λ a f. refl)
close_all-done next ((id, a) ∷ m) chans (s, ss) (d, ds) =
    let c : Chan Rpc = record (chans a) { closed = true } in
    let (chans', e, closed, same) =
      close_all-done next m (update chans a c) (served-update_fresh next a chans c m d ss) ds in
    (
      chans',
      rw (close_at-open a chans s.is_open) e,
      (ap (λ (x : Chan Rpc). x.closed) (same a d ∙ update_self chans a c), closed),
      λ b f. same b f.1 ∙ update_ne chans a b c (λ p. f.0 (sym p)),
    )

-- At the end of the read loop nothing panics: the handler map is emptied, every channel in it is
-- closed, and the error is kept for later calls.
pub close_error-Inv :
    (e : Err) (m : Mux)
    → Inv m
    → (m' : Mux) × (close_error (some e) m ≡ done m')
      × Inv m'
      × (m'.handlers ≡ [])
      × (m'.r_err ≡ some e)
      × All (λ (x : ℕ × ℕ). (m'.chans x.1).closed ≡ true) m.handlers
unfolding close_error
close_error-Inv e m v =
    let (chans, eq, closed, _) =
      close_all-done m.next_chan m.handlers m.chans v.served v.distinct in
    (
      record m { cancelled = true; r_err = some e; chans = chans; handlers = [] },
      rw eq,
      record { served = tt; distinct = tt },
      refl,
      refl,
      closed,
    )

-- A write at the channel of one entry.
pub served-update :
    (next id a : ℕ) (chans : Store Rpc) (c : Chan Rpc) (m : Map ℕ ℕ)
    → All (IsServed next chans) m
    → Distinct m
    → lookup id m ≡ some a
    → IsServed next (update chans a c) (id, a)
    → All (IsServed next (update chans a c)) m
unfolding lookup
served-update next id a chans c [] s d e q = tt
served-update next id a chans c ((j, x) ∷ m) (s, ss) (d, ds) e q = elim (Bool-cases (nat_eq j id)) [
  | inl t ↦
      let same : j ≡ id = (nat_eq_iff j id).0 t in
      let e' : some x ≡ some a = rw t at e in
      let found : x ≡ a = cc in
      (
        subst (IsServed next (update chans a c)) (λ i. (sym same i, sym found i)) q,
        served-update_fresh next a chans c m (subst (λ y. Fresh y m) found d) ss,
      )
  | inr n ↦
      let rest : lookup id m ≡ some a = rw n at e in
      (
        served-other next j x a chans c (Fresh-lookup x a id m d rest) s,
        served-update next id a chans c m ss ds rest q,
      )
]

pub send-empty :
    (c : Chan Rpc) (rpc : Rpc)
    → c.closed ≡ false
    → c.capacity ≡ 1
    → c.buffer ≡ []
    → send c rpc ≡ done (record c { buffer = rpc ∷ [] })
unfolding send
send-empty c rpc o k b = rw (o, k, b)

pub send-full :
    (c : Chan Rpc) (rpc : Rpc)
    → c.closed ≡ false
    → c.capacity ≡ 1
    → 1 ≤ length c.buffer
    → send c rpc ≡ blocked
unfolding send
send-full c rpc o k h = ground arith
