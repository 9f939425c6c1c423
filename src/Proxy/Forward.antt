-- ===== src/Proxy/Forward.antt =====
-- forwardRpc of proxy.go as a whole: when it panics, and what it delivers.
use goat.Base.{
  ◌≡◌, ◌≢◌, ◌↔◌, ◌⊎◌, refl, sym, ◌∙◌, ap, subst, inl, inr, true, false, Option, none, some, List,
  [], ◌∷◌, ◌++◌, last, init, Bytes, Bytes_eq, bytes_eq_iff, ◌==◌, Bool-cases, Option-cases,
}
use goat.Rpc.{RequestHeader, Rpc, Result, ok, err}
use goat.Chan.{Exec, done, blocked, panicked, ◌>>=◌}
use goat.Proxy.{Proxy, RpcIntercepter, intercept, next_hop, deliver, forward_header, forward_rpc}
use goat.Proxy.Queues.{Delivered, deliver-Delivered}

-- What forwardRpc refuses with a panic.
abbrev pub Refused : RpcIntercepter → Bytes → Rpc → Type 0
Refused ic source rpc =
    (rpc.header ≡ none)
    ⊎ ((h : RequestHeader) × (rpc.header ≡ some h)
        × ((h.source ≢ source)
            ⊎ ((h' : RequestHeader) × (intercept ic h ≡ ok h') × (h'.proxy_next ≡ some []))))

-- The last entry of a route that is not empty.
last-cons : (x : Bytes) (xs : List Bytes) → (y : Bytes) × (last (x ∷ xs) ≡ some y)
last-cons x [] = (x, refl)
last-cons x (z ∷ zs) = last-cons z zs

next_hop-panicked_of :
    (id : Bytes) (h : RequestHeader) (o : Option (List Bytes))
    → h.proxy_next ≡ o
    → (next_hop id h ≡ panicked) ↔ (o ≡ some [])
unfolding next_hop
next_hop-panicked_of id h none e = rw (e, next_hop) ((λ x. cc), λ x. cc)
next_hop-panicked_of id h (some []) e = rw (e, next_hop) ((λ x. refl), λ x. refl)
next_hop-panicked_of id h (some (x ∷ xs)) e =
    rw (e, next_hop) (rw ((last-cons x xs).1) ((λ x. cc), λ x. cc))

-- Where an Rpc is to go: to the last entry of its route, if it has one, and else to its destination.
abbrev hop_by : RequestHeader → Option (List Bytes) → Option Bytes
hop_by h none = some h.destination
hop_by h (some route) = last route

abbrev pub hop : RequestHeader → Option Bytes
hop h = hop_by h h.proxy_next

abbrev rest_of : Option (List Bytes) → Option (List Bytes)
rest_of none = none
rest_of (some route) = some (init route)

-- The header with the proxy in its record, and without the route's last entry.
abbrev pub passed : Bytes → RequestHeader → RequestHeader
passed id h = record h {
  proxy_record = h.proxy_record ++ id ∷ [];
  proxy_next = rest_of h.proxy_next;
}

next_hop-done :
    (id : Bytes) (h : RequestHeader) (o : Option (List Bytes)) (destination : Bytes)
    → h.proxy_next ≡ o
    → hop_by h o ≡ some destination
    → next_hop id h ≡ done (destination, passed id h)
unfolding next_hop
next_hop-done id h none destination e d =
    let to : h.destination ≡ destination = cc in
    rw (e, next_hop)
      (λ i. done (to i, record h { proxy_record = h.proxy_record ++ id ∷ []; proxy_next = e i }))
next_hop-done id h (some route) destination e d = rw (e, next_hop) (rw d refl)

bind-panicked :
    {A B : Type 0} (x : Exec A) (f : A → B) → ((x >>= λ a. done (f a)) ≡ panicked) ↔ (x ≡ panicked)
bind-panicked (done a) f = ((λ x. cc), λ x. cc)
bind-panicked blocked f = ((λ x. cc), λ x. cc)
bind-panicked panicked f = ((λ x. refl), λ x. refl)

-- The header that the interceptor passes holds an empty route.
abbrev Lost : Result RequestHeader → Type 0
Lost r = (h : RequestHeader) × (r ≡ ok h) × (h.proxy_next ≡ some [])

forward_header-panicked :
    (rpc : Rpc) (p : Proxy) (r : Result RequestHeader)
    → (forward_header rpc p r ≡ panicked) ↔ Lost r
forward_header-panicked rpc p (err e) = ((λ x. absurd (cc)), λ x. absurd (let y = x.1 in cc))
forward_header-panicked rpc p (ok h) =
    let by_bind = bind-panicked (next_hop p.id h) (λ x. deliver rpc x p) in
    let by_route = next_hop-panicked_of p.id h h.proxy_next refl in
    (
      (λ x. (h, refl, by_route.0 (by_bind.0 x))),
      λ x. let same : h ≡ x.0 = cc in by_bind.1 (by_route.1 (ap (λ y. y.proxy_next) same ∙ x.2)),
    )

pub forward_rpc-source :
    (ic : RpcIntercepter) (source : Bytes) (rpc : Rpc) (p : Proxy) (h : RequestHeader)
    → rpc.header ≡ some h
    → h.source == source ≡ true
    → forward_rpc ic source rpc p ≡ forward_header rpc p (intercept ic h)
unfolding forward_rpc
forward_rpc-source ic source rpc p h present same = rw (present, forward_rpc) (rw same refl)

pub forward_rpc-refused :
    (ic : RpcIntercepter) (source : Bytes) (rpc : Rpc) (p : Proxy) (h : RequestHeader)
    → rpc.header ≡ some h
    → h.source == source ≡ false
    → forward_rpc ic source rpc p ≡ panicked
unfolding forward_rpc
forward_rpc-refused ic source rpc p h present other = rw (present, forward_rpc) (rw other refl)

Refused-Lost :
    (ic : RpcIntercepter) (source : Bytes) (rpc : Rpc) (h : RequestHeader)
    → rpc.header ≡ some h
    → h.source ≡ source
    → Refused ic source rpc
    → Lost (intercept ic h)
Refused-Lost ic source rpc h k s (inl n) = absurd (cc)
Refused-Lost ic source rpc h k s (inr (h₁, k₁, inl other)) =
    let same : h₁ ≡ h = cc in absurd (other (ap (λ y. y.source) same ∙ s))
Refused-Lost ic source rpc h k s (inr (h₁, k₁, inr lost)) =
    let same : h₁ ≡ h = cc in subst (λ y. Lost (intercept ic y)) same lost

-- forwardRpc panics exactly if the Rpc has no header, if that names another source than the client
-- that sent it, or if it holds, after the interceptor, a route that is empty but not nil.
pub forward_rpc-panicked_iff :
    (ic : RpcIntercepter) (source : Bytes) (rpc : Rpc) (p : Proxy)
    → (forward_rpc ic source rpc p ≡ panicked) ↔ Refused ic source rpc
unfolding forward_rpc
forward_rpc-panicked_iff ic source rpc p = elim (Option-cases rpc.header) [
  | inl n ↦ ((λ x. inl n), λ x. rw (n, forward_rpc) refl)
  | inr (h, k) ↦ elim (Bool-cases (h.source == source)) [
    | inl t ↦
        let source_is : h.source ≡ source = (bytes_eq_iff h.source source).0 t in
        let step = forward_rpc-source ic source rpc p h k t in
        let lost = forward_header-panicked rpc p (intercept ic h) in
        (
          (λ x. inr (h, k, inr (lost.0 (sym step ∙ x)))),
          λ x. step ∙ lost.1 (Refused-Lost ic source rpc h k source_is x),
        )
    | inr f ↦ (
      (λ x. inr (h, k, inl (λ s. let t = (bytes_eq_iff h.source source).1 s in cc))),
      λ x. forward_rpc-refused ic source rpc p h k f,
    )
  ]
]

-- An Rpc that the interceptor lets pass is delivered to the last entry of its route, if it has one,
-- and else to its destination: it joins the queue there, if that holds fewer than 16 Rpcs, and is
-- dropped otherwise. Its record then ends with the proxy, its route has lost its last entry, and no
-- other client changes; a destination that was not known is now.
pub forward_rpc-Delivered :
    (ic : RpcIntercepter) (rpc : Rpc) (p : Proxy) (h h' : RequestHeader) (destination : Bytes)
    → rpc.header ≡ some h
    → intercept ic h ≡ ok h'
    → hop h' ≡ some destination
    → (p' : Proxy) × (forward_rpc ic h.source rpc p ≡ done p')
      × Delivered destination (record rpc { header = some (passed p.id h') }) p p'
unfolding forward_rpc
forward_rpc-Delivered ic rpc p h h' destination present accepted goes =
    let same : h.source == h.source ≡ true = (bytes_eq_iff h.source h.source).1 refl in
    let to = next_hop-done p.id h' h'.proxy_next destination refl goes in
    let ends : forward_rpc ic h.source rpc p ≡ done (deliver rpc (destination, passed p.id h') p) =
      rw (present, forward_rpc) (rw same (rw accepted (rw to refl))) in
    (
      deliver rpc (destination, passed p.id h') p,
      ends,
      deliver-Delivered rpc destination (passed p.id h') p,
    )
