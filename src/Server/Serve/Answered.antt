-- ===== src/Server/Serve/Answered.antt =====
-- Unary calls from the read loop of server.go by way of the workers to the writer.
use mathlib.Core.List.{Perm}
use goat.Base.{
  ◌≡◌, refl, ap, subst, ◌∙◌, Option, none, some, List, [], ◌∷◌, ◌++◌, append-nil, Bytes,
}
use goat.Rpc.{RequestHeader, Rpc, Err, Codec}
use goat.Grpc.{Grpc}
use goat.Chan.{done}
use goat.Server.Registry.{Server}
use goat.Server.Unary.{Handler}
use goat.Server.Unary.Answer.{Routed, process_unary_rpc-route}
use goat.Server.Serve.{UnaryRpcArgs, Event, Loop, goes_on, serve, new_handler}
use goat.Server.Serve.Handed.{asked, serve-handed}
use goat.Server.Serve.Workers.{Pool, PoolEvent, new_pool, run_pool, answer_args, answer_with}
use goat.Server.Serve.Workers.Accounts.{Answers, submitted, run_pool-Accounts}

module _ (g : Grpc) {M S : Type 0} (c : Codec M) (text : Err → Bytes) where
  -- A response to a call: it has the call's id, and goes back where that came from.
  abbrev pub Responds : UnaryRpcArgs (Handler M) S → Rpc → Type 0
  Responds args r = (h : RequestHeader) × (args.rpc.header ≡ some h) × Routed args.rpc h r

  abbrev pub AllRespond : List (UnaryRpcArgs (Handler M) S) → List Rpc → Type 0
  AllRespond [] [] = Unit
  AllRespond [] (r ∷ rs) = ⊥
  AllRespond (a ∷ as_) [] = ⊥
  AllRespond (a ∷ as_) (r ∷ rs) = Responds a r × AllRespond as_ rs

  pub answer_with-Responds :
      (args : UnaryRpcArgs (Handler M) S) (r : Rpc) (h : Option RequestHeader)
      → args.rpc.header ≡ h
      → answer_with g c text args h ≡ done r
      → Responds args r
  answer_with-Responds args r none e k = cc
  answer_with-Responds args r (some h) e k = (
    h,
    e,
    process_unary_rpc-route g c text args.info.name args.md.method_name args.md.handler args.rpc h r
        k,
  )

  Answers-AllRespond :
      (as_ : List (UnaryRpcArgs (Handler M) S)) (rs : List Rpc)
      → Answers (answer_args g c text) as_ rs
      → AllRespond as_ rs
  unfolding answer_args
  Answers-AllRespond [] [] h = tt
  Answers-AllRespond [] (r ∷ rs) h = h
  Answers-AllRespond (a ∷ as_) [] h = h
  Answers-AllRespond (a ∷ as_) (r ∷ rs) (e, h) =
      (answer_with-Responds a r a.rpc.header refl e, Answers-AllRespond as_ rs h)

  -- While the read loop of a new connection goes on, once all unary calls that it handed over are
  -- done with, the responses that the writer got are those to the Rpcs that the dispatch takes for
  -- unary calls, one for each, in some order: each carries the id of its own request and goes back
  -- to where that came from.
  pub serve-answered :
      (s : Server (Handler M) S) (es : List Event) (l : Loop (Handler M) S)
      (ps : List (PoolEvent (UnaryRpcArgs (Handler M) S))) (p : Pool (UnaryRpcArgs (Handler M) S))
      → serve (Handler M) S s es (new_handler (Handler M) S) ≡ done (goes_on l)
      → submitted (answer_args g c text) ps ≡ l.handed
      → run_pool (answer_args g c text) ps new_pool ≡ done p
      → p.busy ≡ []
      → (ys : List (UnaryRpcArgs (Handler M) S)) × Perm (asked s es) ys × AllRespond ys p.written
  unfolding new_handler
  serve-answered s es l ps p served given ran idle =
      let handed : l.handed ≡ asked s es = serve-handed s es (new_handler (Handler M) S) l served in
      let (_, (ys, perm, answers)) = run_pool-Accounts (answer_args g c text) ps p ran in
      let all_done : ys ++ p.busy ≡ ys = ap (λ x. ys ++ x) idle ∙ append-nil ys in
      (
        ys,
        subst (λ x. Perm x ys) (given ∙ handed)
            (subst (Perm (submitted (answer_args g c text) ps)) all_done perm),
        Answers-AllRespond ys p.written answers,
      )
