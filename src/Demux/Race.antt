-- ===== src/Demux/Race.antt =====
-- Run of demux.go sends to a connection without the lock: what happens if Cancel comes between the
-- part under the lock and the send.
use goat.Base.{
  ◌≡◌, ◌≢◌, ◌↔◌, refl, sym, ◌∙◌, ap, inl, inr, Bool, true, false, Option, none, some, List, [], ◌∷◌,
  lookup, lookup-delete, lookup-insert_self, Bytes, Bytes_eq, ◌==◌, if◌then◌else◌, Option-cases,
  Bool-cases, arith, is_some,
}
use goat.Rpc.{Rpc}
use goat.Chan.{Exec, done, blocked, panicked, ◌>>=◌}
use goat.Demux.{Demux, DemuxConn, new_conn, find_conn, send_to, hand_to, cancel}

abbrev pub cancel_all : List Bytes → Demux → Demux
cancel_all [] d = d
cancel_all (id ∷ ids) d = cancel_all ids (cancel id d)

abbrev pub among : Bytes → List Bytes → Bool
among id [] = false
among id (j ∷ ids) = if j == id then true else among id ids

-- A turn of Run, with the connections that are cancelled before its send, or a Cancel between turns.
pub data Event : Type 0 where
  reads_amid : Rpc → List Bytes → Event
  cancels : Bytes → Event

lookup-cancel_all :
    (id : Bytes) (ids : List Bytes) (d : Demux)
    → lookup id (cancel_all ids d).conns ≡ (if among id ids then none else lookup id d.conns)
unfolding cancel
lookup-cancel_all id [] d = refl
lookup-cancel_all id (j ∷ ids) d =
    ground (arith, lookup-cancel_all id ids (cancel j d), lookup-delete j id d.conns)

find_conn-found :
    (id : Bytes) (d : Demux) → (c : DemuxConn) × (lookup id (find_conn id d).conns ≡ some c)
unfolding find_conn new_conn
find_conn-found id d = elim (Option-cases (lookup id d.conns)) [
  | inl n ↦ (record { handed = [] }, rw n (lookup-insert_self id (record { handed = [] }) d.conns))
  | inr (c, k) ↦ (c, rw k k)
]

send_to-panicked :
    (id : Bytes) (rpc : Rpc) (d : Demux) (c : Option DemuxConn)
    → (send_to id rpc d c ≡ panicked) ↔ (is_some c ≡ false)
send_to-panicked id rpc d none = ((λ e. refl), λ e. refl)
send_to-panicked id rpc d (some c) = ((λ e. cc), λ e. cc)

send_to-ne-blocked :
    (id : Bytes) (rpc : Rpc) (d : Demux) (c : Option DemuxConn) → send_to id rpc d c ≢ blocked
send_to-ne-blocked id rpc d none e = cc
send_to-ne-blocked id rpc d (some c) e = cc

module _ (demux_on : Rpc → Bytes) where
  unfoldable pub turn_amid : Rpc → List Bytes → Demux → Exec Demux
  unfolding find_conn hand_to cancel
  turn_amid rpc ids d = hand_to (demux_on rpc) rpc (cancel_all ids (find_conn (demux_on rpc) d))

  unfoldable pub run_amid : List Event → Demux → Exec Demux
  unfolding turn_amid cancel
  run_amid [] d = done d
  run_amid (reads_amid rpc ids ∷ es) d = turn_amid rpc ids d >>= run_amid es
  run_amid (cancels id ∷ es) d = run_amid es (cancel id d)

  -- Some turn has its own connection cancelled.
  abbrev pub disturbed : List Event → Bool
  disturbed [] = false
  disturbed (reads_amid rpc ids ∷ es) = if among (demux_on rpc) ids then true else disturbed es
  disturbed (cancels id ∷ es) = disturbed es

  turn_amid-panicked :
      (rpc : Rpc) (ids : List Bytes) (d : Demux)
      → (turn_amid rpc ids d ≡ panicked) ↔ (among (demux_on rpc) ids ≡ true)
  unfolding turn_amid hand_to
  turn_amid-panicked rpc ids d =
      let id = demux_on rpc in
      let (c, k) = find_conn-found id d in
      let after : lookup id (cancel_all ids (find_conn id d)).conns
          ≡ (if among id ids then none else some c) =
        lookup-cancel_all id ids (find_conn id d) ∙ rw k refl in
      let (to, from) =
        send_to-panicked id rpc (cancel_all ids (find_conn id d))
          (lookup id (cancel_all ids (find_conn id d)).conns) in
      elim (Bool-cases (among id ids)) [
        | inl y ↦ ((λ e. y), λ e. from (ap is_some after ∙ rw y refl))
        | inr n ↦ (
          (λ e.
              let gone : is_some (if among id ids then none else some c) ≡ false =
                ap is_some (sym after) ∙ to e in
              let no_way : true ≡ false = rw n at gone in cc),
          λ e. cc,
        )
      ]

  after_turn :
      (es : List Event) (x : Exec Demux) (b : Bool)
      → (x ≡ panicked) ↔ (b ≡ true)
      → x ≢ blocked
      → ((d : Demux) → (run_amid es d ≡ panicked) ↔ (disturbed es ≡ true))
      → ((x >>= run_amid es) ≡ panicked) ↔ ((if b then true else disturbed es) ≡ true)
  after_turn es panicked b (to, from) ne rest =
      let y : b ≡ true = to refl in ((λ e. rw y refl), λ e. refl)
  after_turn es blocked b iff ne rest = absurd (ne refl)
  after_turn es (done d) true (to, from) ne rest = let e : done d ≡ panicked = from refl in cc
  after_turn es (done d) false iff ne rest = rest d

  -- Run panics exactly if, in some turn, the connection that the Rpc goes to is cancelled between
  -- the part of the turn that is under the lock and the send.
  pub run_amid-panicked_iff :
      (es : List Event) (d : Demux) → (run_amid es d ≡ panicked) ↔ (disturbed es ≡ true)
  unfolding run_amid
  run_amid-panicked_iff [] d = ((λ e. cc), λ e. cc)
  run_amid-panicked_iff (cancels id ∷ es) d = run_amid-panicked_iff es (cancel id d)
  run_amid-panicked_iff (reads_amid rpc ids ∷ es) d =
      after_turn es (turn_amid rpc ids d) (among (demux_on rpc) ids) (turn_amid-panicked rpc ids d)
        (unfold turn_amid in unfold hand_to in send_to-ne-blocked _ _ _ _)
        (λ d'. run_amid-panicked_iff es d')
