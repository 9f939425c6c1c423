-- ===== src/Server/Serve/Isolation.antt =====
-- The read loop of server.go against queues that know nothing of each other.
use goat.Base.{
  ℕ, ◌≤◌, ◌≡◌, ◌≢◌, refl, sym, ap, subst, ◌∙◌, inl, inr, false, Option, none, some, List, [], ◌∷◌,
  nat_eq, ℕ_eq, lookup, insert, length, if◌then◌else◌, Option-cases, arith,
}
use goat.Rpc.{RequestHeader, Rpc, Err, Result, ok, err}
use goat.Chan.{Chan, value, Exec, done, blocked, panicked, ◌>>=◌, receive}
use goat.Server.Registry.{
  Server, Action, no_header, bad_method, wrong_destination, unknown_service, unhandled_method,
  unary, streaming, dispatch, ServiceInfo, MethodDesc, StreamDesc,
}
use goat.Server.Streams.{StreamHandler, Choice, queues, gives_up, Outcome}
use goat.Server.Serve.{
  hand_to_worker, Turn, Event, turns, fetches, ends, Loop, Step, goes_on, returns, step_of,
  after_streaming, act, on_rpc, on_read, serve_turn, fetched_from, fetch, step, serve,
  unless_returned,
}
use goat.Server.Serve.Queues.{
  Sound, view, queue_rpc, fetched, Moves-insert, Sound-lookup, Sound-insert, buffer_of, Serves,
  process_streaming_rpc-Serves, unregister_stream-Sound,
}

receive-empty : (c : Chan Rpc) → c.buffer ≡ [] → c.closed ≡ false → receive c ≡ blocked
unfolding receive
receive-empty c e f = rw (e, receive) (rw f refl)

receive-value :
    (c : Chan Rpc) (r : Rpc) (q : List Rpc)
    → c.buffer ≡ r ∷ q
    → receive c ≡ done (record c { buffer = q }, value r)
unfolding receive
receive-value c r q e = rw (e, receive) refl

module _ {H S : Type 0} where
  abbrev pub loop_of : Step H S → Loop H S
  loop_of (goes_on l) = l
  loop_of (returns l e) = l

  -- What an event does to the queue of the stream `id`.
  abbrev queue_act :
      ℕ → Turn → Rpc → RequestHeader → Option (List Rpc) → Action H S → Option (List Rpc)
  queue_act id turn rpc h q no_header = q
  queue_act id turn rpc h q bad_method = q
  queue_act id turn rpc h q wrong_destination = q
  queue_act id turn rpc h q unknown_service = q
  queue_act id turn rpc h q unhandled_method = q
  queue_act id turn rpc h q (unary si md) = q
  queue_act id turn rpc h q (streaming si sd) =
      if nat_eq rpc.id id then queue_rpc rpc h turn.choice q else q

  abbrev queue_on_rpc :
      Server H S → ℕ → Turn → Rpc → Option (List Rpc) → Option RequestHeader → Option (List Rpc)
  queue_on_rpc s id turn rpc q none = q
  queue_on_rpc s id turn rpc q (some h) = queue_act id turn rpc h q (dispatch H S s rpc)

  abbrev queue_on_read : Server H S → ℕ → Turn → Option (List Rpc) → Result Rpc → Option (List Rpc)
  queue_on_read s id turn q (err e) = q
  queue_on_read s id turn q (ok rpc) = queue_on_rpc s id turn rpc q rpc.header

  abbrev pub queue_event : Server H S → ℕ → Event → Option (List Rpc) → Option (List Rpc)
  queue_event s id (turns t) q = queue_on_read s id t q t.read
  queue_event s id (fetches j) q = if nat_eq j id then fetched q else q
  queue_event s id (ends j) q = if nat_eq j id then none else q

  abbrev pub queue_after : Server H S → ℕ → List Event → Option (List Rpc) → Option (List Rpc)
  queue_after s id [] q = q
  queue_after s id (e ∷ es) q = queue_after s id es (queue_event s id e q)

  -- A computation that does not panic and leaves the queues as `f` says.
  abbrev Follows : Loop H S → (ℕ → Option (List Rpc) → Option (List Rpc)) → Exec (Step H S) → Type 0
  Follows l f x =
      (x ≢ panicked)
      × ((r : Step H S)
          → x ≡ done r
          → Sound (loop_of r).streams
            × ((id : ℕ) → view id (loop_of r).streams ≡ f id (view id l.streams)))

  Follows-done :
      (l : Loop H S) (f : ℕ → Option (List Rpc) → Option (List Rpc)) (r : Step H S)
      → Sound (loop_of r).streams
      → ((id : ℕ) → view id (loop_of r).streams ≡ f id (view id l.streams))
      → Follows l f (done r)
  Follows-done l f r v h = (
    (λ e. cc),
    λ r' e.
        let same : r ≡ r' = cc in
        subst
          (λ x.
            Sound (loop_of x).streams
            × ((id : ℕ) → view id (loop_of x).streams ≡ f id (view id l.streams)))
          same (v, h),
  )

  loop_of-step_of : (l : Loop H S) (e : Option Err) → loop_of (step_of H S l e) ≡ l
  loop_of-step_of l none = refl
  loop_of-step_of l (some e) = refl

  after_streaming-Follows :
      (turn : Turn) (rpc : Rpc) (h : RequestHeader) (l : Loop H S) (si : ServiceInfo H S)
      (sd : StreamDesc H S) (x : Exec Outcome)
      → Serves rpc h turn.choice l.streams x
      → Follows l
          (λ id q. queue_act id turn rpc h q (streaming si sd))
          (x >>= λ o. done (after_streaming H S si sd rpc l o))
  after_streaming-Follows turn rpc h l si sd blocked (_, _) = ((λ e. cc), λ r e. cc)
  after_streaming-Follows turn rpc h l si sd panicked (p, _) = absurd (p refl)
  after_streaming-Follows turn rpc h l si sd (done o) (_, k) =
      let (v, moves) = k o refl in
      let same : (loop_of (after_streaming H S si sd rpc l o)).streams ≡ o.streams =
        ap (λ x. x.streams) (loop_of-step_of _ o.error) in
      Follows-done l (λ id q. queue_act id turn rpc h q (streaming si sd))
        (after_streaming H S si sd rpc l o) (subst Sound (sym same) v)
        (λ id. ap (view id) same ∙ moves id)

  hand_to_worker-Follows :
      (si : ServiceInfo H S) (md : MethodDesc H S) (rpc : Rpc) (choice : Choice) (l : Loop H S)
      → Sound l.streams
      → Follows l (λ id q. q) (done (hand_to_worker H S si md rpc choice l))
  hand_to_worker-Follows si md rpc queues l v =
      Follows-done l (λ id q. q) (hand_to_worker H S si md rpc queues l) v (λ id. refl)
  hand_to_worker-Follows si md rpc (gives_up e) l v =
      Follows-done l (λ id q. q) (returns l e) v (λ id. refl)

  act-Follows :
      (turn : Turn) (rpc : Rpc) (h : RequestHeader) (l : Loop H S) (a : Action H S)
      → Sound l.streams
      → Follows l (λ id q. queue_act id turn rpc h q a) (act H S turn rpc h l a)
  act-Follows turn rpc h l no_header v = Follows-done l (λ id q. q) (goes_on l) v (λ id. refl)
  act-Follows turn rpc h l bad_method v = Follows-done l (λ id q. q) (goes_on l) v (λ id. refl)
  act-Follows turn rpc h l wrong_destination v =
      Follows-done l (λ id q. q) (goes_on l) v (λ id. refl)
  act-Follows turn rpc h l unknown_service v = Follows-done l (λ id q. q) (goes_on l) v (λ id. refl)
  act-Follows turn rpc h l unhandled_method v =
      Follows-done l (λ id q. q) (goes_on l) v (λ id. refl)
  act-Follows turn rpc h l (unary si md) v = hand_to_worker-Follows si md rpc turn.choice l v
  act-Follows turn rpc h l (streaming si sd) v =
      after_streaming-Follows turn rpc h l si sd _
        (process_streaming_rpc-Serves rpc h turn.write turn.choice l.streams v)

  on_rpc-Follows :
      (s : Server H S) (turn : Turn) (l : Loop H S) (rpc : Rpc) (h : Option RequestHeader)
      → Sound l.streams
      → Follows l (λ id q. queue_on_rpc s id turn rpc q h) (on_rpc H S s turn l rpc h)
  on_rpc-Follows s turn l rpc none v = Follows-done l (λ id q. q) (goes_on l) v (λ id. refl)
  on_rpc-Follows s turn l rpc (some h) v = act-Follows turn rpc h l (dispatch H S s rpc) v

  on_read-Follows :
      (s : Server H S) (turn : Turn) (l : Loop H S) (r : Result Rpc)
      → Sound l.streams
      → Follows l (λ id q. queue_on_read s id turn q r) (on_read H S s turn l r)
  on_read-Follows s turn l (err e) v = Follows-done l (λ id q. q) (returns l _) v (λ id. refl)
  on_read-Follows s turn l (ok rpc) v = on_rpc-Follows s turn l rpc rpc.header v

  -- A fetch, given what the stream's channel holds.
  fetched_from-Follows :
      (id : ℕ) (l : Loop H S) (s : StreamHandler) (q : List Rpc)
      → Sound l.streams
      → lookup id l.streams ≡ some s
      → s.ch.buffer ≡ q
      → Follows l
          (λ j v. if nat_eq id j then fetched v else v)
          (fetched_from H S id l (some s) >>= λ l'. done (goes_on l'))
  fetched_from-Follows id l s [] v k e =
      let (unclosed, _, _) = Sound-lookup l.streams id s v k in
      rw (receive-empty s.ch e unclosed) ((λ e'. cc), λ r e'. cc)
  fetched_from-Follows id l s (rpc ∷ q) v k e =
      let (unclosed, one, few) = Sound-lookup l.streams id s v k in
      let s' : StreamHandler = record s { ch = record s.ch { buffer = q } } in
      let l' : Loop H S = record l { streams = insert id s' l.streams } in
      let short : length (rpc ∷ q) ≤ 1 = subst (λ x. length x ≤ 1) e few in
      let held : view id l.streams ≡ some (rpc ∷ q) = ap buffer_of k ∙ ap some e in
      rw (receive-value s.ch rpc q e) (
        Follows-done l (λ j v. if nat_eq id j then fetched v else v) (goes_on l')
          (Sound-insert l.streams id s' (unclosed, one, ground arith) v)
          (Moves-insert id fetched s' l.streams (ap fetched held)))

  fetch-Follows :
      (id : ℕ) (l : Loop H S)
      → Sound l.streams
      → Follows l
          (λ j q. if nat_eq id j then fetched q else q)
          (fetch H S id l >>= λ l'. done (goes_on l'))
  unfolding fetch
  fetch-Follows id l v = elim (Option-cases (lookup id l.streams)) [
    | inl n ↦ rw n ((λ e. cc), λ r e. cc)
    | inr (s, k) ↦ rw k (fetched_from-Follows id l s s.ch.buffer v k refl)
  ]

  step-Follows :
      (s : Server H S) (e : Event) (l : Loop H S)
      → Sound l.streams
      → Follows l (λ id q. queue_event s id e q) (step H S s e l)
  unfolding step serve_turn
  step-Follows s (turns t) l v = on_read-Follows s t l t.read v
  step-Follows s (fetches id) l v = fetch-Follows id l v
  step-Follows s (ends id) l v =
      let (v', moves) = unregister_stream-Sound id l.streams v in
      Follows-done l (λ j q. if nat_eq id j then none else q) (goes_on _) v' moves

  -- What the loop does over some events.
  abbrev pub ServesAll : Server H S → List Event → Loop H S → Exec (Step H S) → Type 0
  ServesAll s es l x =
      (x ≢ panicked)
      × ((r : Step H S) → x ≡ done r → Sound (loop_of r).streams)
      × ((l' : Loop H S)
          → x ≡ done (goes_on l')
          → (id : ℕ) → view id l'.streams ≡ queue_after s id es (view id l.streams))

  after_step-ServesAll :
      (s : Server H S) (e : Event) (es : List Event) (l : Loop H S) (x : Exec (Step H S))
      → Follows l (λ id q. queue_event s id e q) x
      → ((l' : Loop H S) → Sound l'.streams → ServesAll s es l' (serve H S s es l'))
      → ServesAll s (e ∷ es) l (x >>= unless_returned H S (serve H S s es))
  after_step-ServesAll s e es l blocked f rest = ((λ e'. cc), (λ r e'. cc), λ l' e'. cc)
  after_step-ServesAll s e es l panicked f rest = absurd (f.0 refl)
  after_step-ServesAll s e es l (done (returns l₁ err₁)) f rest = (
    (λ e'. cc),
    (λ r e'.
        let same : returns l₁ err₁ ≡ r = cc in
        subst (λ x. Sound (loop_of x).streams) same (f.1 (returns l₁ err₁) refl).0),
    λ l' e'. cc,
  )
  after_step-ServesAll s e es l (done (goes_on l₁)) f rest =
      let (v, moved) = f.1 (goes_on l₁) refl in
      let (safe, sound, follows) = rest l₁ v in
      (safe, sound, λ l' e' id. follows l' e' id ∙ ap (queue_after s id es) (moved id))

  -- From a table of open channels with room for one Rpc, the read loop never panics, whatever is
  -- read, whichever streams fetch or end in between, and whichever way each `select` goes, and it
  -- leaves such a table. As long as it goes on, each stream sees a queue of its own: an Rpc that
  -- reaches the method of a stream starts the queue of its id or joins it, a fetch takes the first
  -- Rpc, the end removes it, and nothing that concerns another id changes it.
  pub serve-ServesAll :
      (s : Server H S) (es : List Event) (l : Loop H S)
      → Sound l.streams
      → ServesAll s es l (serve H S s es l)
  unfolding serve
  serve-ServesAll s [] l v = (
    (λ e. cc),
    (λ r e. let same : goes_on l ≡ r = cc in subst (λ x. Sound (loop_of x).streams) same v),
    λ l' e id. let same : l ≡ l' = cc in ap (λ x. view id x.streams) (sym same),
  )
  serve-ServesAll s (e ∷ es) l v =
      after_step-ServesAll s e es l (step H S s e l) (step-Follows s e l v)
        (λ l' v'. serve-ServesAll s es l' v')
