-- ===== src/Proxy/Queues.antt =====
-- What proxy.go does with an Rpc: where it is queued and when it is dropped.
use goat.Base.{
  ◌≡◌, ◌≢◌, refl, sym, ◌∙◌, subst, inl, inr, false, Option, none, some, List, [], ◌∷◌, ◌++◌, length,
  ltb, arith, lookup, insert, lookup-insert, lookup-insert_self, Bytes, Bytes_eq, bytes_eq_iff,
  if◌then◌else◌, Bool-cases, Option-cases,
}
use goat.Rpc.{RequestHeader, Rpc}
use goat.Proxy.{
  client_buffer_size, ProxyClient, Proxy, add_outgoing_connection, enqueue, client_for, deliver,
}

-- The queue of a client; one that is not known has none.
abbrev queue_in : Option ProxyClient → List Rpc
queue_in none = []
queue_in (some c) = c.from_server

abbrev pub queue : Bytes → Proxy → List Rpc
queue id p = queue_in (lookup id p.clients)

-- What delivery to `destination` does: the Rpc joins the queue there, if that has room, and no other
-- client changes.
abbrev pub Delivered : Bytes → Rpc → Proxy → Proxy → Type 0
Delivered destination rpc p p' =
    (queue destination p' ≡ (
      if ltb (length (queue destination p)) client_buffer_size
      then queue destination p ++ rpc ∷ []
      else queue destination p))
    × (lookup destination p'.clients ≢ none)
    × (p'.id ≡ p.id)
    × ((j : Bytes) → destination ≢ j → lookup j p'.clients ≡ lookup j p.clients)

enqueue-Delivered :
    (destination : Bytes) (rpc : Rpc) (client : ProxyClient) (p : Proxy)
    → lookup destination p.clients ≡ some client
    → Delivered destination rpc p (enqueue destination rpc client p)
enqueue-Delivered destination rpc client p k =
    let queued : queue destination p ≡ client.from_server = rw k refl in
    elim (Bool-cases (ltb (length client.from_server) client_buffer_size)) [
      | inl room ↦
          let c' : ProxyClient = record client { from_server = client.from_server ++ rpc ∷ [] } in
          let same : enqueue destination rpc client p
              ≡ record p { clients = insert destination c' p.clients } =
            unfold enqueue in rw room refl in
          let found = lookup-insert_self destination c' p.clients in
          subst (Delivered destination rpc p) (sym same) (
            rw (found) (rw queued (rw room refl)),
            rw found (λ x. cc),
            refl,
            λ j n.
                ground
                  (arith, lookup-insert destination j c' p.clients, bytes_eq_iff destination j),
          )
      | inr full ↦
          let same : enqueue destination rpc client p ≡ p = unfold enqueue in rw full refl in
          subst (Delivered destination rpc p) (sym same)
            (rw queued (rw full refl), rw k (λ x. cc), refl, λ j n. refl)
    ]

abbrev pub fresh : ProxyClient
fresh = record { was_added = false; from_server = [] }

abbrev pub with_fresh : Bytes → Proxy → Proxy
with_fresh destination p = record p { clients = insert destination fresh p.clients }

pub client_for-none :
    (destination : Bytes) (p : Proxy)
    → lookup destination p.clients ≡ none
    → client_for destination p ≡ (with_fresh destination p, fresh)
unfolding client_for add_outgoing_connection
client_for-none destination p n = rw (n, client_for) refl

pub client_for-some :
    (destination : Bytes) (p : Proxy) (c : ProxyClient)
    → lookup destination p.clients ≡ some c
    → client_for destination p ≡ (p, c)
unfolding client_for
client_for-some destination p c k = rw (k, client_for) refl

Delivered-with_fresh :
    (destination : Bytes) (rpc : Rpc) (p p' : Proxy)
    → lookup destination p.clients ≡ none
    → Delivered destination rpc (with_fresh destination p) p'
    → Delivered destination rpc p p'
Delivered-with_fresh destination rpc p p' n d =
    let empty : queue destination p ≡ [] = rw n refl in
    let empty₁ : queue destination (with_fresh destination p) ≡ [] =
      rw (lookup-insert_self destination fresh p.clients) refl in
    (
      subst
          (λ q.
            queue destination p' ≡ (if ltb (length q) client_buffer_size then q ++ rpc ∷ [] else q))
          (empty₁ ∙ sym empty) d.0,
      d.1,
      d.2,
      λ j m.
          let same : lookup j (insert destination fresh p.clients) ≡ lookup j p.clients =
            ground
              (arith, lookup-insert destination j fresh p.clients, bytes_eq_iff destination j) in
          d.3 j m ∙ same,
    )

pub deliver-Delivered :
    (rpc : Rpc) (destination : Bytes) (h : RequestHeader) (p : Proxy)
    → Delivered destination (record rpc { header = some h }) p (deliver rpc (destination, h) p)
unfolding deliver
deliver-Delivered rpc destination h p = elim (Option-cases (lookup destination p.clients)) [
  | inl n ↦
      rw (client_for-none destination p n, deliver)
        (Delivered-with_fresh destination (record rpc { header = some h }) p _ n
          (enqueue-Delivered destination (record rpc { header = some h }) fresh
            (with_fresh destination p) (lookup-insert_self destination fresh p.clients)))
  | inr (c, k) ↦
      rw (client_for-some destination p c k, deliver)
        (enqueue-Delivered destination (record rpc { header = some h }) c p k)
]
