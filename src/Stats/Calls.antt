-- ===== src/Stats/Calls.antt =====
-- What stats handlers are told of a call from its begin to its end, with the helpers of
-- internal/util.go.
use goat.Base.{
  ◌≡◌, refl, subst, Bool, true, false, Option, List, [], ◌∷◌, ◌++◌, map, if◌then◌else◌, Bytes,
}
use goat.Rpc.{Err}
use goat.Encoding.Metadata.{Md}
use goat.Stats.{
  Event, begin_rpc, in_header, end_rpc, end_error, md_or_empty, StatsHandler, Told, start_each,
  stats_start_server_rpc, stats_end_rpc,
}

module _ (C : Type 0) where
  -- `for _, sh := range statsHandlers { sh.HandleRPC(ctx, …) }` for some events in a row.
  unfoldable pub tell_each : List (StatsHandler C) → C → List Event → List (List (Told C))
  tell_each [] ctx es = []
  tell_each (sh ∷ shs) ctx es =
      map (λ e. record { context = ctx; event = e }) es ∷ tell_each shs ctx es

  -- What each handler is told first, and what it is told next.
  abbrev pub zip_append : List (List (Told C)) → List (List (Told C)) → List (List (Told C))
  zip_append [] ys = []
  zip_append (x ∷ xs) [] = x ∷ xs
  zip_append (x ∷ xs) (y ∷ ys) = (x ++ y) ∷ zip_append xs ys

  -- The context that all handlers have tagged.
  abbrev pub tagged : List (StatsHandler C) → Bytes → C → C
  tagged [] method ctx = ctx
  tagged (sh ∷ shs) method ctx = tagged shs method (sh.tag_rpc ctx method)

  -- A call whose handlers are told `mid` between its begin and its end with `e`.
  unfoldable pub call_stats :
      (C → Option Md)
      → List (StatsHandler C)
      → Bool
      → Bytes
      → Bool
      → Bool
      → List Event
      → Option Err
      → C
      → List (List (Told C))
  unfolding stats_start_server_rpc stats_end_rpc tell_each
  call_stats incoming shs client method cs ss mid e ctx =
      let s = stats_start_server_rpc C incoming shs client method cs ss ctx in
      zip_append s.batches
        (zip_append (tell_each shs s.context mid) (stats_end_rpc C shs client e s.context))

  abbrev pub opening : Bool → Bytes → Bool → Bool → Md → List Event
  opening client method cs ss md =
      begin_rpc client cs ss ∷ (if client then [] else in_header method md ∷ [])

  -- What a handler is told of a whole call: its begin in the context that it has just tagged, and
  -- the rest in the context that all have tagged.
  abbrev Whole :
      Bool → Bytes → Bool → Bool → Md → List Event → Option Err → C → C → List (Told C) → Type 0
  Whole client method cs ss md mid e own all_ told =
      told
      ≡ map (λ x. record { context = own; event = x }) (opening client method cs ss md)
        ++ map (λ x. record { context = all_; event = x }) mid
        ++ record { context = all_; event = end_rpc client (end_error e) } ∷ []

  -- The same for each of some handlers, from the context `ctx` on.
  abbrev pub Wholes :
      Bool
      → Bytes
      → Bool
      → Bool
      → Md
      → List Event
      → Option Err
      → C
      → C
      → List (StatsHandler C)
      → List (List (Told C))
      → Type 0
  Wholes client method cs ss md mid e ctx all_ [] [] = Unit
  Wholes client method cs ss md mid e ctx all_ [] (t ∷ ts) = ⊥
  Wholes client method cs ss md mid e ctx all_ (sh ∷ shs) [] = ⊥
  Wholes client method cs ss md mid e ctx all_ (sh ∷ shs) (t ∷ ts) =
      Whole client method cs ss md mid e (sh.tag_rpc ctx method) all_ t
      × Wholes client method cs ss md mid e (sh.tag_rpc ctx method) all_ shs ts

  start_each-context :
      (shs : List (StatsHandler C)) (client : Bool) (method : Bytes) (cs ss : Bool) (md : Md)
      (ctx : C)
      → (start_each C shs client method cs ss md ctx).context ≡ tagged shs method ctx
  unfolding start_each
  start_each-context [] client method cs ss md ctx = refl
  start_each-context (sh ∷ shs) client method cs ss md ctx =
      start_each-context shs client method cs ss md (sh.tag_rpc ctx method)

  Wholes-start_each :
      (shs : List (StatsHandler C)) (client : Bool) (method : Bytes) (cs ss : Bool) (md : Md)
      (mid : List Event) (e : Option Err) (ctx all_ : C)
      → Wholes client method cs ss md mid e ctx all_ shs (
          zip_append
            (start_each C shs client method cs ss md ctx).batches
            (zip_append (tell_each shs all_ mid) (stats_end_rpc C shs client e all_)))
  unfolding start_each tell_each stats_end_rpc
  Wholes-start_each [] client method cs ss md mid e ctx all_ = tt
  Wholes-start_each (sh ∷ shs) true method cs ss md mid e ctx all_ =
      (refl, Wholes-start_each shs true method cs ss md mid e (sh.tag_rpc ctx method) all_)
  Wholes-start_each (sh ∷ shs) false method cs ss md mid e ctx all_ =
      (refl, Wholes-start_each shs false method cs ss md mid e (sh.tag_rpc ctx method) all_)

  pub call_stats-Wholes :
      (incoming : C → Option Md) (shs : List (StatsHandler C)) (client : Bool) (method : Bytes)
      (cs ss : Bool) (mid : List Event) (e : Option Err) (ctx : C)
      → Wholes client method cs ss
          (md_or_empty (incoming ctx))
          mid
          e
          ctx
          (tagged shs method ctx)
          shs
          (call_stats incoming shs client method cs ss mid e ctx)
  unfolding call_stats stats_start_server_rpc
  call_stats-Wholes incoming [] client method cs ss mid e ctx = tt
  call_stats-Wholes incoming (sh ∷ shs) client method cs ss mid e ctx =
      let md = md_or_empty (incoming ctx) in
      let all_ = start_each-context (sh ∷ shs) client method cs ss md ctx in
      subst
        (λ x. Wholes client method cs ss md mid e ctx x (sh ∷ shs) (
          zip_append (start_each C (sh ∷ shs) client method cs ss md ctx).batches (
            zip_append
              (tell_each (sh ∷ shs) (start_each C (sh ∷ shs) client method cs ss md ctx).context
                mid)
              (stats_end_rpc C (sh ∷ shs) client e
                (start_each C (sh ∷ shs) client method cs ss md ctx).context))))
        all_
        (Wholes-start_each (sh ∷ shs) client method cs ss md mid e ctx
          (start_each C (sh ∷ shs) client method cs ss md ctx).context)
