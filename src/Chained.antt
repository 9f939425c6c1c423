-- ===== src/Chained.antt =====
-- chained.go: several interceptors of a server as one. The functions for unary calls and for streams
-- differ only in their types: an interceptor gets two arguments (a context and a request, or a
-- server and a stream), information on the method, and the handler to call.
use Prim.Native.Nat.{zero}
use goat.Base.{
  ℕ, suc, ◌+◌, ◌≤◌, subst, ◌≡◌, refl, ap, true, false, Option, none, some, List, [], ◌∷◌, ◌++◌,
  length, length-append, get_elem?, nat_eq, arith, if◌then◌else◌, append_assoc,
}
use goat.Chan.{Exec, blocked, panicked}

module _ (A B I R : Type 0) where
  abbrev pub Handler : Type 0
  Handler = A → B → Exec R

  abbrev pub Interceptor : Type 0
  Interceptor = A → B → I → Handler → Exec R

  -- `interceptors[n](a, b, info, handler)`, where an index out of range panics.
  abbrev call : Option Interceptor → A → B → I → Handler → Exec R
  call none a b info h = panicked
  call (some i) a b info h = i a b info h

  -- getChainUnaryHandler. As many steps as there are interceptors are
  -- enough.
  unfoldable pub get_chain_handler : ℕ → List Interceptor → ℕ → I → Handler → Handler
  get_chain_handler zero interceptors curr info final a b = blocked
  get_chain_handler (suc n) interceptors curr info final a b =
      let rest = get_chain_handler n interceptors (curr + 1) info final in
      if nat_eq (curr + 1) (length interceptors)
      then final a b
      else call (get_elem? interceptors (curr + 1)) a b info rest

  -- ChainUnaryInterceptor
  unfoldable pub chain_interceptor : List Interceptor → Interceptor
  unfolding get_chain_handler
  chain_interceptor interceptors a b info handler =
      call (get_elem? interceptors 0) a b info
        (get_chain_handler (length interceptors) interceptors 0 info handler)

  -- getChainStreamHandler, whose interceptors get a server and a stream.
  unfoldable pub get_chain_stream_handler : ℕ → List Interceptor → ℕ → I → Handler → Handler
  unfolding get_chain_handler
  get_chain_stream_handler n interceptors curr info final =
      get_chain_handler n interceptors curr info final

  -- ChainStreamInterceptor
  unfoldable pub chain_stream_interceptor : List Interceptor → Interceptor
  unfolding get_chain_stream_handler
  chain_stream_interceptor interceptors a b info handler =
      call (get_elem? interceptors 0) a b info
        (get_chain_stream_handler (length interceptors) interceptors 0 info handler)

  -- Each interceptor around the next, and the last one around the handler.
  abbrev pub nested : List Interceptor → I → Handler → Handler
  nested [] info handler a b = handler a b
  nested (i ∷ is) info handler a b = i a b info (nested is info handler)

  get_elem-append :
      (xs : List Interceptor) (y : Interceptor) (ys : List Interceptor)
      → get_elem? (xs ++ y ∷ ys) (length xs) ≡ some y
  get_elem-append [] y ys = refl
  get_elem-append (x ∷ xs) y ys = get_elem-append xs y ys

  -- The interceptor after the first ones, seen from the one before it.
  after :
      (before : List Interceptor) (i j : Interceptor) (is : List Interceptor)
      → get_elem? (before ++ i ∷ j ∷ is) (length before + 1) ≡ some j
  after before i j is =
      let assoc = append_assoc before (i ∷ []) (j ∷ is) in
      let size : length (before ++ i ∷ []) ≡ length before + 1 =
        omega (arith, length-append before (i ∷ [])) in
      subst (λ n. get_elem? (before ++ i ∷ j ∷ is) n ≡ some j) size
        (subst (λ xs. get_elem? xs (length (before ++ i ∷ [])) ≡ some j) assoc
          (get_elem-append (before ++ i ∷ []) j is))

  get_chain_handler-nested :
      (n : ℕ) (before : List Interceptor) (i : Interceptor) (is : List Interceptor) (info : I)
      (handler : Handler) (a : A) (b : B)
      → length is ≤ n
      → get_chain_handler (suc n) (before ++ i ∷ is) (length before) info handler a b
        ≡ nested is info handler a b
  unfolding get_chain_handler
  get_chain_handler-nested n before i [] info handler a b enough =
      let at_end : nat_eq (length before + 1) (length (before ++ i ∷ [])) ≡ true =
        ground (arith, length-append before (i ∷ [])) in
      rw (at_end, get_chain_handler) refl
  get_chain_handler-nested zero before i (j ∷ is) info handler a b enough = absurd (omega arith)
  get_chain_handler-nested (suc n) before i (j ∷ is) info handler a b enough =
      let inside : nat_eq (length before + 1) (length (before ++ i ∷ j ∷ is)) ≡ false =
        ground (arith, length-append before (i ∷ j ∷ is)) in
      let assoc = append_assoc before (i ∷ []) (j ∷ is) in
      let size : length (before ++ i ∷ []) ≡ length before + 1 =
        omega (arith, length-append before (i ∷ [])) in
      let ih : (a : A) (b : B)
          → get_chain_handler (suc n) ((before ++ i ∷ []) ++ j ∷ is) (length (before ++ i ∷ []))
              info handler a b
            ≡ nested is info handler a b =
        λ a b. get_chain_handler-nested n (before ++ i ∷ []) j is info handler a b (omega arith) in
      let inner : get_chain_handler (suc n) (before ++ i ∷ j ∷ is) (length before + 1) info handler
          ≡ nested is info handler =
        subst
          (λ m.
            get_chain_handler (suc n) (before ++ i ∷ j ∷ is) m info handler
            ≡ nested is info handler)
          size
          (subst
            (λ xs.
              get_chain_handler (suc n) xs (length (before ++ i ∷ [])) info handler
              ≡ nested is info handler)
            assoc (λ k a b. ih a b k)) in
      rw (inside, get_chain_handler) (rw (after before i j is) (ap (j a b info) inner))

  -- A chain of at least one interceptor calls the first one around the next, and so on, and the last
  -- one around the handler; an empty one panics when it is called.
  pub chain_interceptor-nested :
      (interceptors : List Interceptor) (a : A) (b : B) (info : I) (handler : Handler)
      → chain_interceptor interceptors a b info handler
        ≡ (elim interceptors [ [] ↦ panicked | i ∷ is ↦ nested (i ∷ is) info handler a b ])
  unfolding chain_interceptor
  chain_interceptor-nested [] a b info handler = refl
  chain_interceptor-nested (i ∷ is) a b info handler =
      ap (i a b info)
        (λ k a b. get_chain_handler-nested (length is) [] i is info handler a b (omega arith) k)

  pub chain_stream_interceptor-chain :
      (interceptors : List Interceptor) (a : A) (b : B) (info : I) (handler : Handler)
      → chain_stream_interceptor interceptors a b info handler
        ≡ chain_interceptor interceptors a b info handler
  unfolding chain_stream_interceptor chain_interceptor get_chain_stream_handler
  chain_stream_interceptor-chain interceptors a b info handler = refl
