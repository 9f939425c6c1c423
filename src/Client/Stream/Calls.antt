-- ===== src/Client/Stream/Calls.antt =====
-- RecvMsg and the reset of internal/client/stream.go, whatever the transport reads.
use goat.Base.{
  ◌≡◌, ◌≢◌, ◌↔◌, refl, sym, ◌∙◌, inl, inr, Bool, true, false, Option, none, some, List, [], ◌∷◌,
  Bool-cases, Option-cases,
}
use goat.Rpc.{Body, Rpc, get_headers, Err, Result, ok, err, Codec, Trailer}
use goat.Encoding.Metadata.{to_metadata}
use goat.Grpc.{Grpc}
use goat.Chan.{done, blocked, panicked}
use goat.Client.Stream.{
  ClientStream, Turn, goes_on, returns, Hand, fetched, ends, Reading, with_body, end_loop,
  error_if_done, turn, read_loop, on_ready, teardown, Wake, ctx_ends, message, channel_closed,
  recv_msg, header, after_header, hand_over,
}

-- The channel is closed exactly when the stream is done.
abbrev pub IsMarked : ClientStream → Type 0
IsMarked cs = cs.closed ≡ cs.is_done

-- A wake-up by the closed channel comes from a channel that is closed.
abbrev pub Fits : ClientStream → Wake → Type 0
Fits later w = w ≡ channel_closed → later.closed ≡ true

-- What a turn leaves alone while the loop runs.
abbrev Keeps : Bool → Turn → Type 0
Keeps b (goes_on cs body) = (cs.closed ≡ b) × (cs.is_done ≡ b)
Keeps b (returns cs e t) = Unit

-- A reset is written exactly when the loop ended without a trailer in a context that had ended.
abbrev pub ResetIff : Bool → Reading → Type 0
ResetIff ctx_over l =
    (l.writes ≢ []) ↔ ((l.has_ended ≡ true) × (l.stream.trailer ≡ none) × (ctx_over ≡ true))

module _ (g : Grpc) where
  hand_over-Keeps :
      (b : Bool) (cs : ClientStream) (body : Option Body) (hand : Hand)
      → cs.closed ≡ b
      → cs.is_done ≡ b
      → Keeps b (hand_over g cs body hand)
  hand_over-Keeps b cs none hand p q = (p, q)
  hand_over-Keeps b cs (some body) fetched p q = (p, q)
  hand_over-Keeps b cs (some body) (ends e) p q = tt

  after_header-Keeps :
      (b : Bool) (cs : ClientStream) (rpc : Rpc) (hand : Hand)
      → cs.closed ≡ b
      → cs.is_done ≡ b
      → Keeps b (after_header g cs rpc hand)
  after_header-Keeps b cs rpc hand p q = elim (Bool-cases (error_if_done g rpc).0) [
    | inl t ↦ rw t tt
    | inr f ↦ rw f (hand_over-Keeps b cs rpc.body hand p q)
  ]

  turn-Keeps :
      (b : Bool) (cs : ClientStream) (r : Result Rpc) (hand : Hand)
      → cs.closed ≡ b
      → cs.is_done ≡ b
      → Keeps b (turn g cs r hand)
  unfolding turn on_ready
  turn-Keeps b cs (err e) hand p q = tt
  turn-Keeps b cs (ok rpc) hand p q = elim (Option-cases cs.header) [
    | inr (md, k) ↦ rw k (after_header-Keeps b _ rpc hand p q)
    | inl k ↦ elim (Option-cases (to_metadata (get_headers rpc.header))) [
      | inl n ↦ rw k (rw n tt)
      | inr (md, j) ↦ rw k (rw j (after_header-Keeps b _ rpc hand p q))
    ]
  ]

  read_loop_turn :
      (P : Reading → Type 0) (ctx_over b : Bool)
      → ((body : Option Body) (l : Reading) → P l → P (with_body body l))
      → ((cs : ClientStream) (e : Option Err) (t : Option Trailer) → P (end_loop ctx_over cs e t))
      → (cs : ClientStream) (r : Result Rpc) (hand : Hand) (reads : List (Result Rpc × Hand))
      → ((cs' : ClientStream)
          → cs'.closed ≡ b
          → cs'.is_done ≡ b
          → P (read_loop g ctx_over cs' reads))
      → (x : Turn) → turn g cs r hand ≡ x
      → Keeps b x
      → P (read_loop g ctx_over cs ((r, hand) ∷ reads))
  unfolding read_loop
  read_loop_turn P ctx_over b step stop cs r hand reads ih (goes_on cs' body) e k =
      rw (e, read_loop) (step body _ (ih cs' k.0 k.1))
  read_loop_turn P ctx_over b step stop cs r hand reads ih (returns cs' e' t) e k =
      rw (e, read_loop) (stop cs' e' t)

  -- Induction on the reads: what holds while the loop waits and where it ends, and does not depend
  -- on the messages, holds of every loop.
  read_loop_ind :
      (P : Reading → Type 0) (ctx_over b : Bool)
      → ((cs : ClientStream)
          → cs.closed ≡ b
          → cs.is_done ≡ b
          → P (record { stream = cs; bodies = []; writes = []; has_ended = false }))
      → ((body : Option Body) (l : Reading) → P l → P (with_body body l))
      → ((cs : ClientStream) (e : Option Err) (t : Option Trailer) → P (end_loop ctx_over cs e t))
      → (cs : ClientStream) (reads : List (Result Rpc × Hand)) → cs.closed ≡ b
      → cs.is_done ≡ b
      → P (read_loop g ctx_over cs reads)
  read_loop_ind P ctx_over b base step stop cs [] p q = unfold read_loop in (base cs p q)
  read_loop_ind P ctx_over b base step stop cs ((r, hand) ∷ reads) p q =
      read_loop_turn P ctx_over b step stop cs r hand reads
        (λ cs' p' q'. read_loop_ind P ctx_over b base step stop cs' reads p' q') (turn g cs r hand)
        refl (turn-Keeps b cs r hand p q)

  with_body-IsMarked :
      (body : Option Body) (l : Reading) → IsMarked l.stream → IsMarked (with_body body l).stream
  with_body-IsMarked none l h = h
  with_body-IsMarked (some b) l h = h

  read_loop-IsMarked :
      (ctx_over : Bool) (cs : ClientStream) (reads : List (Result Rpc × Hand))
      → IsMarked cs
      → IsMarked (read_loop g ctx_over cs reads).stream
  unfolding end_loop
  read_loop-IsMarked ctx_over cs reads p =
      read_loop_ind (λ l. IsMarked l.stream) ctx_over cs.is_done (λ cs' p' q'. p' ∙ sym q')
        with_body-IsMarked (λ cs' e t. refl) cs reads p refl

  with_body-ResetIff :
      (ctx_over : Bool) (body : Option Body) (l : Reading)
      → ResetIff ctx_over l
      → ResetIff ctx_over (with_body body l)
  with_body-ResetIff ctx_over none l h = h
  with_body-ResetIff ctx_over (some b) l h = h

  end_loop-ResetIff :
      (ctx_over : Bool) (cs : ClientStream) (e : Option Err) (t : Option Trailer)
      → ResetIff ctx_over (end_loop ctx_over cs e t)
  unfolding end_loop teardown
  end_loop-ResetIff true cs e none = ((λ n. (refl, refl, refl)), λ x y. cc)
  end_loop-ResetIff false cs e none = ((λ n. absurd (n refl)), λ x. cc)
  end_loop-ResetIff ctx_over cs e (some t) = ((λ n. absurd (n refl)), λ x. cc)

  -- Whatever the transport reads, the read loop of a stream whose channel is closed exactly if it is
  -- done writes a reset exactly when it ends without a trailer in a context that has ended.
  pub read_loop-ResetIff :
      (ctx_over : Bool) (cs : ClientStream) (reads : List (Result Rpc × Hand))
      → IsMarked cs
      → ResetIff ctx_over (read_loop g ctx_over cs reads)
  read_loop-ResetIff ctx_over cs reads p =
      read_loop_ind (ResetIff ctx_over) ctx_over cs.is_done
        (λ cs' p' q'. ((λ n. absurd (n refl)), λ x. cc)) (with_body-ResetIff ctx_over)
        (end_loop-ResetIff ctx_over) cs reads p refl

  module _ {M : Type 0} (c : Codec M) where
    recv_msg-done :
        (cs later : ClientStream) (w : Wake)
        → (w ≡ channel_closed → later.is_done ≡ true)
        → recv_msg g c cs w later ≢ panicked
    unfolding recv_msg
    recv_msg-done cs later (ctx_ends e) f = elim (Bool-cases cs.is_done) [
      | inl t ↦ rw (t, recv_msg) (λ x. cc)
      | inr n ↦ rw (n, recv_msg) (λ x. cc)
    ]
    recv_msg-done cs later (message b) f = elim (Bool-cases cs.is_done) [
      | inl t ↦ rw (t, recv_msg) (λ x. cc)
      | inr n ↦ rw (n, recv_msg) (λ x. cc)
    ]
    recv_msg-done cs later channel_closed f = elim (Bool-cases cs.is_done) [
      | inl t ↦ rw (t, recv_msg) (λ x. cc)
      | inr n ↦ rw (n, f refl, recv_msg) (λ x. cc)
    ]

    -- RecvMsg never panics: if the channel of a stream is closed exactly if it is done when its loop
    -- starts, then whatever the transport reads, RecvMsg that is woken by the closed channel finds the
    -- stream done.
    pub recv_msg-ne-panicked :
        (ctx_over : Bool) (cs : ClientStream) (reads : List (Result Rpc × Hand)) (w : Wake)
        → IsMarked cs
        → let later = (read_loop g ctx_over cs reads).stream in
          Fits later w → recv_msg g c cs w later ≢ panicked
    recv_msg-ne-panicked ctx_over cs reads w p f =
        recv_msg-done cs (read_loop g ctx_over cs reads).stream w
          (λ e. sym (read_loop-IsMarked ctx_over cs reads p) ∙ f e)

    turn-undecodable :
        (cs : ClientStream) (rpc : Rpc) (hand : Hand)
        → cs.header ≡ none
        → to_metadata (get_headers rpc.header) ≡ none
        → turn g cs (ok rpc) hand ≡ returns cs none none
    unfolding turn
    turn-undecodable cs rpc hand h n = rw h (rw n refl)

    -- If the first Rpc of a stream has metadata that cannot be decoded, the stream is done with no
    -- error: RecvMsg reports success without a message, and Header waits for ever.
    pub recv_msg-undecodable :
        (ctx_over : Bool) (cs : ClientStream) (rpc : Rpc) (hand : Hand)
        (reads : List (Result Rpc × Hand)) (w : Wake)
        → cs.header ≡ none
        → cs.is_ready ≡ false
        → to_metadata (get_headers rpc.header) ≡ none
        → let later = (read_loop g ctx_over cs ((ok rpc, hand) ∷ reads)).stream in
          (recv_msg g c later w later ≡ done (none, none)) × (header later ≡ blocked)
    unfolding recv_msg header read_loop end_loop
    recv_msg-undecodable ctx_over cs rpc hand reads w h r n =
        rw (turn-undecodable cs rpc hand h n, read_loop) (refl, rw r refl)
