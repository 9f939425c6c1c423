-- ===== src/Server/Serve/Handed.antt =====
-- The unary calls that the read loop of server.go hands to its workers, and how the loop ends.
use goat.Base.{
  lookup, insert, ℕ_eq, ℕ, ◌≡◌, refl, sym, ap, subst, ◌∙◌, Option, none, some, List, [], ◌∷◌, ◌++◌,
  append_assoc, append-nil,
}
use goat.Rpc.{RequestHeader, Rpc, Err, Result, ok, err}
use goat.Chan.{Chan, Received, receive, Exec, done, blocked, panicked, ◌>>=◌}
use goat.Server.Registry.{
  ServiceInfo, StreamDesc, Server, Action, no_header, bad_method, wrong_destination,
  unknown_service, unhandled_method, unary, streaming, dispatch,
}
use goat.Server.Streams.{StreamHandler, Choice, queues, gives_up, Outcome}
use goat.Server.Serve.{
  UnaryRpcArgs, Turn, Event, turns, fetches, ends, Loop, Step, goes_on, returns, step_of,
  after_streaming, hand_to_worker, act, on_rpc, on_read, serve_turn, fetched_from, fetch, step,
  serve, unless_returned,
}

module _ {H S : Type 0} where
  abbrev asked_act : Rpc → Action H S → List (UnaryRpcArgs H S)
  asked_act rpc (unary si md) = record { info = si; md = md; rpc = rpc } ∷ []
  asked_act rpc no_header = []
  asked_act rpc bad_method = []
  asked_act rpc wrong_destination = []
  asked_act rpc unknown_service = []
  asked_act rpc unhandled_method = []
  asked_act rpc (streaming si sd) = []

  abbrev asked_header : Server H S → Rpc → Option RequestHeader → List (UnaryRpcArgs H S)
  asked_header s rpc none = []
  asked_header s rpc (some h) = asked_act rpc (dispatch H S s rpc)

  abbrev asked_read : Server H S → Result Rpc → List (UnaryRpcArgs H S)
  asked_read s (err e) = []
  asked_read s (ok rpc) = asked_header s rpc rpc.header

  -- The unary calls among what is read, by the dispatch.
  abbrev pub asked : Server H S → List Event → List (UnaryRpcArgs H S)
  asked s [] = []
  asked s (turns t ∷ es) = asked_read s t.read ++ asked s es
  asked s (fetches id ∷ es) = asked s es
  asked s (ends id ∷ es) = asked s es

  abbrev Hands : Loop H S → List (UnaryRpcArgs H S) → Exec (Step H S) → Type 0
  Hands l xs x = (l' : Loop H S) → x ≡ done (goes_on l') → l'.handed ≡ l.handed ++ xs

  Hands-goes_on :
      (l l₁ : Loop H S) (xs : List (UnaryRpcArgs H S))
      → l₁.handed ≡ l.handed ++ xs
      → Hands l xs (done (goes_on l₁))
  Hands-goes_on l l₁ xs h l' e =
      let same : l₁ ≡ l' = cc in subst (λ x. x.handed ≡ l.handed ++ xs) same h

  Hands-same : (l : Loop H S) → Hands l [] (done (goes_on l))
  Hands-same l = Hands-goes_on l l [] (sym (append-nil l.handed))

  Hands-streaming :
      (si : ServiceInfo H S) (sd : StreamDesc H S) (rpc : Rpc) (l : Loop H S) (x : Exec Outcome)
      → Hands l [] (x >>= λ o. done (after_streaming H S si sd rpc l o))
  Hands-streaming si sd rpc l blocked l' e = cc
  Hands-streaming si sd rpc l panicked l' e = cc
  Hands-streaming si sd rpc l (done o) l' e = by_error _ o.error refl e
    where
      by_error :
          (l₁ : Loop H S) (e : Option Err)
          → l₁.handed ≡ l.handed
          → done (step_of H S l₁ e) ≡ done (goes_on l')
          → l'.handed ≡ l.handed ++ []
      by_error l₁ none k h =
          let same : l₁ ≡ l' = cc in ap (λ x. x.handed) (sym same) ∙ k ∙ sym (append-nil l.handed)
      by_error l₁ (some e) k h = cc

  act-Hands :
      (turn : Turn) (rpc : Rpc) (h : RequestHeader) (l : Loop H S) (a : Action H S)
      → Hands l (asked_act rpc a) (act H S turn rpc h l a)
  act-Hands turn rpc h l no_header = Hands-same l
  act-Hands turn rpc h l bad_method = Hands-same l
  act-Hands turn rpc h l wrong_destination = Hands-same l
  act-Hands turn rpc h l unknown_service = Hands-same l
  act-Hands turn rpc h l unhandled_method = Hands-same l
  act-Hands turn rpc h l (streaming si sd) = Hands-streaming si sd rpc l _
  act-Hands turn rpc h l (unary si md) = by_choice turn.choice
    where
      by_choice :
          (choice : Choice)
          → Hands l (asked_act rpc (unary si md)) (done (hand_to_worker H S si md rpc choice l))
      by_choice queues = Hands-goes_on l _ (asked_act rpc (unary si md)) refl
      by_choice (gives_up e) = λ l' e'. cc

  on_read-Hands :
      (s : Server H S) (turn : Turn) (l : Loop H S) (r : Result Rpc)
      → Hands l (asked_read s r) (on_read H S s turn l r)
  on_read-Hands s turn l (err e) = λ l' h. cc
  on_read-Hands s turn l (ok rpc) = by_header rpc.header
    where
      by_header :
          (h : Option RequestHeader) → Hands l (asked_header s rpc h) (on_rpc H S s turn l rpc h)
      by_header none = Hands-same l
      by_header (some h) = act-Hands turn rpc h l (dispatch H S s rpc)

  Hands-fetch : (id : ℕ) (l : Loop H S) → Hands l [] (fetch H S id l >>= λ l'. done (goes_on l'))
  unfolding fetch
  Hands-fetch id l = by_entry (lookup id l.streams)
    where
      by_receive :
          (h : StreamHandler) (x : Exec (Chan Rpc × Received Rpc))
          → Hands l [] (
              (x >>= λ r. done (record l { streams = insert id (record h { ch = r.0 }) l.streams }))
              >>= λ l'. done (goes_on l'))
      by_receive h blocked = λ l' e. cc
      by_receive h panicked = λ l' e. cc
      by_receive h (done r) = Hands-goes_on l _ [] (sym (append-nil l.handed))

      by_entry :
          (h : Option StreamHandler)
          → Hands l [] (fetched_from H S id l h >>= λ l'. done (goes_on l'))
      by_entry none = λ l' e. cc
      by_entry (some h) = by_receive h (receive h.ch)

  step-Hands :
      (s : Server H S) (e : Event) (l : Loop H S) → Hands l (asked s (e ∷ [])) (step H S s e l)
  unfolding step serve_turn
  step-Hands s (turns t) l =
      subst (λ xs. Hands l xs (on_read H S s t l t.read)) (sym (append-nil (asked_read s t.read)))
        (on_read-Hands s t l t.read)
  step-Hands s (fetches id) l = Hands-fetch id l
  step-Hands s (ends id) l = Hands-goes_on l _ [] (sym (append-nil l.handed))

  asked-cons :
      (s : Server H S) (e : Event) (es : List Event)
      → asked s (e ∷ es) ≡ asked s (e ∷ []) ++ asked s es
  asked-cons s (turns t) es = ap (λ x. x ++ asked s es) (sym (append-nil (asked_read s t.read)))
  asked-cons s (fetches id) es = refl
  asked-cons s (ends id) es = refl

  -- As long as the read loop goes on, it hands to the workers exactly the Rpcs that its dispatch
  -- takes for unary calls, each once and in the order in which they were read.
  pub serve-handed :
      (s : Server H S) (es : List Event) (l l' : Loop H S)
      → serve H S s es l ≡ done (goes_on l')
      → l'.handed ≡ l.handed ++ asked s es
  unfolding serve
  serve-handed s [] l l' h =
      let same : l ≡ l' = cc in ap (λ x. x.handed) (sym same) ∙ sym (append-nil l.handed)
  serve-handed s (e ∷ es) l l' h =
      by_step (step H S s e l) (step-Hands s e l) (λ l₁. serve-handed s es l₁ l') h
    where
      by_step :
          (x : Exec (Step H S))
          → Hands l (asked s (e ∷ [])) x
          → ((l₁ : Loop H S)
              → serve H S s es l₁ ≡ done (goes_on l')
              → l'.handed ≡ l₁.handed ++ asked s es)
          → (x >>= unless_returned H S (serve H S s es)) ≡ done (goes_on l')
          → l'.handed ≡ l.handed ++ asked s (e ∷ es)
      by_step blocked hands rest k = cc
      by_step panicked hands rest k = cc
      by_step (done (returns l₁ err₁)) hands rest k = cc
      by_step (done (goes_on l₁)) hands rest k =
          rest l₁ k
          ∙ ap (λ x. x ++ asked s es) (hands l₁ refl)
          ∙ append_assoc l.handed (asked s (e ∷ [])) (asked s es)
          ∙ ap (λ x. l.handed ++ x) (sym (asked-cons s e es))
