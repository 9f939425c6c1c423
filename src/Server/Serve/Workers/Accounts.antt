-- ===== src/Server/Serve/Workers/Accounts.antt =====
-- The workers of `serve` in server.go: every unary call is answered once.
use mathlib.Core.List.{Perm}
use mathlib.Core.List.Perm
use Prim.Native.Nat.{zero}
use goat.Base.{
  ℕ, suc, ◌≤◌, ◌≡◌, refl, sym, ap, subst, inl, inr, true, false, some, List, [], ◌∷◌, ◌++◌,
  append_assoc, append-nil, ltb, length, length-append, get_elem?, Bool-cases, Option-cases, arith,
}
use goat.Rpc.{Rpc}
use goat.Chan.{Exec, done, blocked, panicked, ◌>>=◌}
use goat.Server.Serve.Workers.{
  num_rpc_workers, Pool, PoolEvent, submits, finishes, stops, new_pool, remove_at, submit,
  hand_to_writer, finish, pool_step, run_pool,
}

module _ {A : Type 0} (process : A → Exec Rpc) where
  abbrev pub submitted : List (PoolEvent A) → List A
  submitted [] = []
  submitted (submits a ∷ es) = a ∷ submitted es
  submitted (finishes i ∷ es) = submitted es
  submitted (stops ∷ es) = submitted es

  -- Some responses are those of some calls.
  abbrev pub Answers : List A → List Rpc → Type 0
  Answers [] [] = Unit
  Answers [] (r ∷ rs) = ⊥
  Answers (a ∷ as_) [] = ⊥
  Answers (a ∷ as_) (r ∷ rs) = (process a ≡ done r) × Answers as_ rs

  -- The calls are those that were answered and those that are worked on.
  abbrev pub Accounts : List A → Pool A → Type 0
  Accounts xs p =
      (length p.busy ≤ num_rpc_workers)
      × ((ys : List A) × Perm xs (ys ++ p.busy) × Answers ys p.written)

  Answers-append :
      (as_ : List A) (rs : List Rpc) (a : A) (r : Rpc)
      → Answers as_ rs
      → process a ≡ done r
      → Answers (as_ ++ a ∷ []) (rs ++ r ∷ [])
  Answers-append [] [] a r h e = (e, tt)
  Answers-append [] (r' ∷ rs) a r h e = absurd h
  Answers-append (a' ∷ as_) [] a r h e = absurd h
  Answers-append (a' ∷ as_) (r' ∷ rs) a r (e', h) e = (e', Answers-append as_ rs a r h e)

  remove_at-Perm :
      (xs : List A) (i : ℕ) (a : A)
      → get_elem? xs i ≡ some a
      → Perm xs (a ∷ remove_at xs i) × (length (remove_at xs i) ≤ length xs)
  remove_at-Perm [] i a e = cc
  remove_at-Perm (x ∷ xs) zero a e =
      let same : x ≡ a = cc in
      (subst (λ y. Perm (x ∷ xs) (y ∷ xs)) same (Perm.refl (x ∷ xs)), ground arith)
  remove_at-Perm (x ∷ xs) (suc i) a e =
      let (p, short) = remove_at-Perm xs i a e in
      (Perm.trans (Perm.cons x p) (Perm.swap a x (remove_at xs i)), ground arith)

  submit-Accounts :
      (xs : List A) (a : A) (p p' : Pool A)
      → Accounts xs p
      → submit a p ≡ done p'
      → Accounts (xs ++ a ∷ []) p'
  unfolding submit
  submit-Accounts xs a p p' (few, (ys, perm, answers)) e =
      elim (Bool-cases (ltb (length p.busy) num_rpc_workers)) [
        | inr full ↦ absurd (let e' : blocked ≡ done p' = rw full at e in cc)
        | inl room ↦
            let q : Pool A = record p { busy = p.busy ++ a ∷ [] } in
            let e' : done q ≡ done p' = rw room at e in
            let same : q ≡ p' = cc in
            let joined : Perm (xs ++ a ∷ []) (ys ++ (p.busy ++ a ∷ [])) =
              subst (Perm (xs ++ a ∷ [])) (append_assoc ys p.busy (a ∷ []))
                (Perm.append_right (a ∷ []) perm) in
            subst (Accounts (xs ++ a ∷ [])) same
              (ground (arith, length-append p.busy (a ∷ [])), (ys, joined, answers))
      ]

  hand_to_writer-Accounts :
      (xs : List A) (i : ℕ) (a : A) (r : Rpc) (p p' : Pool A)
      → Accounts xs p
      → get_elem? p.busy i ≡ some a
      → process a ≡ done r
      → hand_to_writer r i p ≡ done p'
      → Accounts xs p'
  unfolding hand_to_writer
  hand_to_writer-Accounts xs i a r p p' (few, (ys, perm, answers)) k ran e =
      elim (Bool-cases p.stopped) [
        | inl t ↦ absurd (let e' : blocked ≡ done p' = rw t at e in cc)
        | inr f ↦
            let rest = remove_at p.busy i in
            let q : Pool A = record {
              busy = rest;
              written = p.written ++ r ∷ [];
              stopped = false;
            } in
            let e' : done q ≡ done p' = rw f at e in
            let same : q ≡ p' = cc in
            let (out, short) = remove_at-Perm p.busy i a k in
            let moved : Perm xs ((ys ++ a ∷ []) ++ rest) =
              subst (Perm xs) (sym (append_assoc ys (a ∷ []) rest))
                (Perm.trans perm (Perm.append_left ys out)) in
            subst (Accounts xs) same
              (omega arith, (ys ++ a ∷ [], moved, Answers-append ys p.written a r answers ran))
      ]

  finished_call-Accounts :
      (xs : List A) (i : ℕ) (a : A) (p p' : Pool A) (x : Exec Rpc)
      → process a ≡ x
      → Accounts xs p
      → get_elem? p.busy i ≡ some a
      → (x >>= λ r. hand_to_writer r i p) ≡ done p'
      → Accounts xs p'
  finished_call-Accounts xs i a p p' (done r) ran v k e =
      hand_to_writer-Accounts xs i a r p p' v k ran e
  finished_call-Accounts xs i a p p' blocked ran v k e = cc
  finished_call-Accounts xs i a p p' panicked ran v k e = cc

  finish-Accounts :
      (xs : List A) (i : ℕ) (p p' : Pool A)
      → Accounts xs p
      → finish process i p ≡ done p'
      → Accounts xs p'
  unfolding finish
  finish-Accounts xs i p p' v e = elim (Option-cases (get_elem? p.busy i)) [
    | inl n ↦ absurd (let e' : blocked ≡ done p' = rw n at e in cc)
    | inr (a, k) ↦ finished_call-Accounts xs i a p p' (process a) refl v k (rw k at e)
  ]

  pool_step-Accounts :
      (xs : List A) (e : PoolEvent A) (p p' : Pool A)
      → Accounts xs p
      → pool_step process e p ≡ done p'
      → Accounts (xs ++ submitted (e ∷ [])) p'
  unfolding pool_step
  pool_step-Accounts xs (submits a) p p' v e = submit-Accounts xs a p p' v e
  pool_step-Accounts xs (finishes i) p p' v e =
      subst (λ x. Accounts x p') (sym (append-nil xs)) (finish-Accounts xs i p p' v e)
  pool_step-Accounts xs stops p p' v e =
      let same : ◌≡◌ {A = Pool A} (record p { stopped = true }) p' = cc in
      subst (λ x. Accounts x p') (sym (append-nil xs)) (subst (Accounts xs) same v)

  after_step-Accounts :
      (xs : List A) (e : PoolEvent A) (es : List (PoolEvent A)) (p p' : Pool A) (x : Exec (Pool A))
      → ((q : Pool A) → x ≡ done q → Accounts (xs ++ submitted (e ∷ [])) q)
      → ((q : Pool A)
          → Accounts (xs ++ submitted (e ∷ [])) q
          → run_pool process es q ≡ done p'
          → Accounts ((xs ++ submitted (e ∷ [])) ++ submitted es) p')
      → (x >>= run_pool process es) ≡ done p'
      → Accounts ((xs ++ submitted (e ∷ [])) ++ submitted es) p'
  after_step-Accounts xs e es p p' (done q) v rest h = rest q (v q refl) h
  after_step-Accounts xs e es p p' blocked v rest h = cc
  after_step-Accounts xs e es p p' panicked v rest h = cc

  submitted-cons :
      (xs : List A) (e : PoolEvent A) (es : List (PoolEvent A))
      → (xs ++ submitted (e ∷ [])) ++ submitted es ≡ xs ++ submitted (e ∷ es)
  submitted-cons xs (submits a) es = append_assoc xs (a ∷ []) (submitted es)
  submitted-cons xs (finishes i) es = ap (λ x. x ++ submitted es) (append-nil xs)
  submitted-cons xs stops es = ap (λ x. x ++ submitted es) (append-nil xs)

  run_pool-Accounts_from :
      (xs : List A) (es : List (PoolEvent A)) (p p' : Pool A)
      → Accounts xs p
      → run_pool process es p ≡ done p'
      → Accounts (xs ++ submitted es) p'
  unfolding run_pool
  run_pool-Accounts_from xs [] p p' v h =
      let same : p ≡ p' = cc in
      subst (λ x. Accounts x p') (sym (append-nil xs)) (subst (Accounts xs) same v)
  run_pool-Accounts_from xs (e ∷ es) p p' v h =
      subst (λ x. Accounts x p') (submitted-cons xs e es)
        (after_step-Accounts xs e es p p' (pool_step process e p)
          (λ q k. pool_step-Accounts xs e p q v k)
          (λ q w k. run_pool-Accounts_from (xs ++ submitted (e ∷ [])) es q p' w k) h)

  pub run_pool-Accounts :
      (es : List (PoolEvent A)) (p : Pool A)
      → run_pool process es new_pool ≡ done p
      → Accounts (submitted es) p
  run_pool-Accounts es p h =
      run_pool-Accounts_from [] es new_pool p
        (unfold new_pool in (ground arith, ([], Perm.refl [], tt))) h
