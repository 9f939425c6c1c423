-- ===== src/Client/Conn/Served.antt =====
-- Unary calls of a client's connection and the workers of its server: internal/client/multiplexer.go
-- with `serve` of server.go.
use mathlib.Core.List.{Mem, mem-cons_self, mem-cons_of_mem}
use mathlib.Core.List.Perm
use Prim.Native.Nat.{zero}
use goat.Base.{
  ℕ, suc, ◌≡◌, refl, sym, subst, ap, ◌∙◌, some, List, [], ◌∷◌, ◌++◌, get_elem?, lookup, ℕ_eq, Bytes,
}
use goat.Rpc.{Rpc, Err, Codec}
use goat.Grpc.{Grpc}
use goat.Chan.{Exec, done, value}
use goat.Client.Mux.{Mux, receive_at}
use goat.Client.Mux.Steps.{Reach, receive_at-id}
use goat.Server.Registry.{Server}
use goat.Server.Unary.{Handler}
use goat.Server.Serve.{UnaryRpcArgs, Event, Loop, goes_on, serve, new_handler}
use goat.Server.Serve.Handed.{asked, serve-handed}
use goat.Server.Serve.Workers.{Pool, PoolEvent, new_pool, run_pool, answer_args}
use goat.Server.Serve.Workers.Accounts.{Answers, submitted, run_pool-Accounts}
use goat.Server.Serve.Answered.{answer_with-Responds}

Answers-get_elem? :
    {A : Type 0} (process : A → Exec Rpc) (ys zs : List A) (rs : List Rpc) (i : ℕ) (r : Rpc)
    → Answers process ys rs
    → get_elem? rs i ≡ some r
    → (y : A) × Mem y (ys ++ zs) × (process y ≡ done r)
Answers-get_elem? process [] zs [] i r h e = cc
Answers-get_elem? process [] zs (r' ∷ rs) i r h e = absurd h
Answers-get_elem? process (y ∷ ys) zs [] i r h e = absurd h
Answers-get_elem? process (y ∷ ys) zs (r' ∷ rs) zero r (ran, h) e =
    let same : r' ≡ r = cc in (y, mem-cons_self, ran ∙ ap done same)
Answers-get_elem? process (y ∷ ys) zs (r' ∷ rs) (suc i) r (ran, h) e =
    let (x, m, ran') = Answers-get_elem? process ys zs rs i r h e in (x, mem-cons_of_mem y m, ran')

module _ (g : Grpc) {M S : Type 0} (c : Codec M) (text : Err → Bytes) where
  -- If a caller of a unary call receives one of the responses that the writer of a new connection at
  -- the server got while its read loop goes on, then, however the goroutines of either side
  -- interleave, this is what processUnaryRpc makes of an Rpc which the dispatch takes for a unary
  -- call and which has the id of that very caller.
  pub receive_at-answer_args :
      {m : Mux}
      → Reach m
      → (id a : ℕ) (r : Rpc) (m' : Mux) (s : Server (Handler M) S) (es : List Event)
        (l : Loop (Handler M) S) (ps : List (PoolEvent (UnaryRpcArgs (Handler M) S)))
        (p : Pool (UnaryRpcArgs (Handler M) S)) (i : ℕ)
      → lookup id m.handlers ≡ some a
      → receive_at a m ≡ done (m', value r)
      → serve (Handler M) S s es (new_handler (Handler M) S) ≡ done (goes_on l)
      → submitted (answer_args g c text) ps ≡ l.handed
      → run_pool (answer_args g c text) ps new_pool ≡ done p
      → get_elem? p.written i ≡ some r
      → (y : UnaryRpcArgs (Handler M) S) × Mem y (asked s es)
        × (y.rpc.id ≡ id)
        × (answer_args g c text y ≡ done r)
  unfolding new_handler
  receive_at-answer_args reach id a r m' s es l ps p i registered received served given ran got =
      let handed : l.handed ≡ asked s es = serve-handed s es (new_handler (Handler M) S) l served in
      let (_, (ys, perm, answers)) = run_pool-Accounts (answer_args g c text) ps p ran in
      let (y, m, e) =
        Answers-get_elem? (answer_args g c text) ys p.busy p.written i r answers got in
      let own : r.id ≡ id = receive_at-id reach id a r m' registered received in
      let (_, _, (same, _)) =
        answer_with-Responds g c text y r y.rpc.header refl (unfold answer_args in e) in
      (y, subst (λ x. Mem y x) (given ∙ handed) ((Perm.mem_iff perm).1 m), sym same ∙ own, e)
