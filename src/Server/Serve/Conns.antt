-- ===== src/Server/Serve/Conns.antt =====
-- What stats handlers are told of a connection by `serve` of server.go. A context belongs to package
-- context: `C` stands for it.
use goat.Base.{◌≡◌, refl, subst, false, List, [], ◌∷◌, ◌++◌}
use goat.Stats.{ConnEvent, tag_conn, conn_begin, conn_end}

module _ (C : Type 0) where
  -- stats.Handler, as far as connections go: the context that TagConn returns.
  pub record ConnHandler : Type 0 where
    pub tag : C → C

  -- A call of a handler, with its context.
  pub record ConnTold : Type 0 where
    pub conn_context : C
    pub conn_event : ConnEvent

  pub record Begun : Type 0 where
    pub left : C
    pub batches : List (List ConnTold)

  -- The loop at the start of `serve`: each handler tags the context that the one before left.
  unfoldable pub begin_conns : List ConnHandler → C → Begun
  begin_conns [] ctx = record { left = ctx; batches = [] }
  begin_conns (sh ∷ shs) ctx =
      let rest = begin_conns shs (sh.tag ctx) in
      record {
        left = rest.left;
        batches =
            (record { conn_context = ctx; conn_event = tag_conn }
              ∷ record { conn_context = sh.tag ctx; conn_event = conn_begin false }
              ∷ [])
            ∷ rest.batches;
      }

  -- What each handler was told, and the end, as the deferred function of `serve` tells it.
  unfoldable pub end_conns : C → List (List ConnTold) → List (List ConnTold)
  end_conns ctx [] = []
  end_conns ctx (b ∷ bs) =
      (b ++ record { conn_context = ctx; conn_event = conn_end false } ∷ []) ∷ end_conns ctx bs

  -- The whole of `serve`, however it ends.
  unfoldable pub conn_stats : List ConnHandler → C → List (List ConnTold)
  unfolding begin_conns end_conns
  conn_stats shs ctx = let b = begin_conns shs ctx in end_conns b.left b.batches

  abbrev pub tagged_by : List ConnHandler → C → C
  tagged_by [] ctx = ctx
  tagged_by (sh ∷ shs) ctx = tagged_by shs (sh.tag ctx)

  -- A handler's share of a connection: it tags a context, is told the begin in what it made of that,
  -- and the end in the context that all handlers have tagged.
  abbrev pub Shares : List ConnHandler → C → C → List (List ConnTold) → Type 0
  Shares [] ctx all_ [] = Unit
  Shares [] ctx all_ (t ∷ ts) = ⊥
  Shares (sh ∷ shs) ctx all_ [] = ⊥
  Shares (sh ∷ shs) ctx all_ (t ∷ ts) =
      (t
        ≡ record { conn_context = ctx; conn_event = tag_conn }
          ∷ record { conn_context = sh.tag ctx; conn_event = conn_begin false }
          ∷ record { conn_context = all_; conn_event = conn_end false }
          ∷ [])
      × Shares shs (sh.tag ctx) all_ ts

  begin_conns-tagged_by :
      (shs : List ConnHandler) (ctx : C) → (begin_conns shs ctx).left ≡ tagged_by shs ctx
  unfolding begin_conns
  begin_conns-tagged_by [] ctx = refl
  begin_conns-tagged_by (sh ∷ shs) ctx = begin_conns-tagged_by shs (sh.tag ctx)

  end_conns-Shares :
      (shs : List ConnHandler) (ctx all_ : C)
      → Shares shs ctx all_ (end_conns all_ (begin_conns shs ctx).batches)
  unfolding begin_conns end_conns
  end_conns-Shares [] ctx all_ = tt
  end_conns-Shares (sh ∷ shs) ctx all_ = (refl, end_conns-Shares shs (sh.tag ctx) all_)

  -- Of a connection each stats handler of a server tags the context that the one before it left, is
  -- told the begin in what it made of that, and the end in the context that all have tagged.
  pub conn_stats-Shares :
      (shs : List ConnHandler) (ctx : C) → Shares shs ctx (tagged_by shs ctx) (conn_stats shs ctx)
  unfolding conn_stats
  conn_stats-Shares shs ctx =
      subst
        (λ x. Shares shs ctx x (end_conns (begin_conns shs ctx).left (begin_conns shs ctx).batches))
        (begin_conns-tagged_by shs ctx) (end_conns-Shares shs ctx (begin_conns shs ctx).left)
