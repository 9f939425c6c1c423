-- ===== src/Demux.antt =====
-- demux.go: one transport split into connections, by an identity that each Rpc is given. A connection
-- is shown by the Rpcs that it was handed; its channel `r` is open while it is in the table.
pub mod Race
pub mod Writer
use goat.Base.{
  ◌≡◌, refl, sym, ◌∙◌, ap, inl, inr, Option, none, some, List, [], ◌∷◌, ◌++◌, Map, lookup, insert,
  delete, lookup-insert, lookup-delete, lookup-insert_self, Bytes, Bytes_eq, bytes_eq_iff, ◌==◌,
  if◌then◌else◌, Option-cases, Bool-cases, is_some,
}
use goat.Rpc.{Rpc}
use goat.Chan.{Exec, done, panicked, ◌>>=◌}

pub record DemuxConn : Type 0 where
  pub handed : List Rpc

pub record Demux : Type 0 where
  pub conns : Map Bytes DemuxConn
  -- the identities for which onNewConnection was called
  pub announced : List Bytes

-- NewDemux
unfoldable pub new_demux : Demux
new_demux = record { conns = []; announced = [] }

-- newConnLocked
unfoldable pub new_conn : Bytes → Demux → Demux
new_conn id d = record {
  conns = insert id (record { handed = [] }) d.conns;
  announced = d.announced ++ id ∷ [];
}

-- The part of Run under the lock: the connection is in the table afterwards.
unfoldable pub find_conn : Bytes → Demux → Demux
unfolding new_conn
find_conn id d = if is_some (lookup id d.conns) then d else new_conn id d

abbrev pub send_to : Bytes → Rpc → Demux → Option DemuxConn → Exec Demux
send_to id rpc d none = panicked
send_to id rpc d (some c) =
    done (record d { conns = insert id (record { handed = c.handed ++ rpc ∷ [] }) d.conns })

-- `conn.r <- rpc`, without the lock: the channel of a connection that left the table is closed.
unfoldable pub hand_to : Bytes → Rpc → Demux → Exec Demux
hand_to id rpc d = send_to id rpc d (lookup id d.conns)

-- Cancel
unfoldable pub cancel : Bytes → Demux → Demux
cancel id d = record d { conns = delete id d.conns }

-- What happens to a Demux: Run reads an Rpc, and is through with it, or a connection is cancelled.
pub data Event : Type 0 where
  reads : Rpc → Event
  cancels : Bytes → Event

abbrev pub handed_in : Option DemuxConn → List Rpc
handed_in none = []
handed_in (some c) = c.handed

-- What the connection of an identity was handed, if it has one.
abbrev pub handed_to : Bytes → Demux → List Rpc
handed_to id d = handed_in (lookup id d.conns)

handed-insert :
    (i j : Bytes) (rpcs : List Rpc) (conns : Map Bytes DemuxConn)
    → handed_in (lookup j (insert i (record { handed = rpcs }) conns))
      ≡ (if i == j then rpcs else handed_in (lookup j conns))
handed-insert i j rpcs conns =
    let c : DemuxConn = record { handed = rpcs } in
    elim (Bool-cases (i == j)) [
      | inl t ↦
          let new_ : (if i == j then some c else lookup j conns) ≡ some c = rw t refl in
          ap handed_in (lookup-insert i j c conns ∙ new_) ∙ rw t refl
      | inr f ↦
          let old : (if i == j then some c else lookup j conns) ≡ lookup j conns = rw f refl in
          ap handed_in (lookup-insert i j c conns ∙ old) ∙ rw f refl
    ]

handed-delete :
    (i j : Bytes) (conns : Map Bytes DemuxConn)
    → handed_in (lookup j (delete i conns)) ≡ (if i == j then [] else handed_in (lookup j conns))
handed-delete i j conns = elim (Bool-cases (i == j)) [
  | inl t ↦
      let gone : (if i == j then none else lookup j conns) ≡ none = rw t refl in
      ap handed_in (lookup-delete i j conns ∙ gone) ∙ rw t refl
  | inr f ↦
      let old : (if i == j then none else lookup j conns) ≡ lookup j conns = rw f refl in
      ap handed_in (lookup-delete i j conns ∙ old) ∙ rw f refl
]

abbrev found : Bytes → Rpc → Demux → DemuxConn → Demux
found id rpc d c = record d { conns = insert id (record { handed = c.handed ++ rpc ∷ [] }) d.conns }

hand_to-known :
    (id : Bytes) (rpc : Rpc) (d : Demux) (c : DemuxConn)
    → lookup id d.conns ≡ some c
    → hand_to id rpc d ≡ done (found id rpc d c)
unfolding hand_to
hand_to-known id rpc d c k = rw (k, hand_to) refl

find_conn-known :
    (id : Bytes) (d : Demux) (c : DemuxConn) → lookup id d.conns ≡ some c → find_conn id d ≡ d
unfolding find_conn
find_conn-known id d c k = rw (k, find_conn) refl

find_conn-unknown :
    (id : Bytes) (d : Demux) → lookup id d.conns ≡ none → find_conn id d ≡ new_conn id d
unfolding find_conn
find_conn-unknown id d n = rw (n, find_conn) refl

-- Where the Rpcs of a connection gain one.
found-handed_to :
    (id j : Bytes) (rpc : Rpc) (d : Demux) (c : DemuxConn)
    → lookup id d.conns ≡ some c
    → handed_to j (found id rpc d c)
      ≡ (if id == j then handed_to j d ++ rpc ∷ [] else handed_to j d)
found-handed_to id j rpc d c k = elim (Bool-cases (id == j)) [
  | inl t ↦
      let here : handed_to j d ≡ c.handed =
        ap (λ x. handed_to x d) (sym ((bytes_eq_iff id j).0 t)) ∙ ap handed_in k in
      handed-insert id j (c.handed ++ rpc ∷ []) d.conns ∙ rw t (rw here refl)
  | inr f ↦ handed-insert id j (c.handed ++ rpc ∷ []) d.conns ∙ rw f refl
]

new_conn-handed_to :
    (id j : Bytes) (d : Demux)
    → lookup id d.conns ≡ none
    → handed_to j (new_conn id d) ≡ handed_to j d
unfolding new_conn
new_conn-handed_to id j d n = elim (Bool-cases (id == j)) [
  | inl t ↦
      let here : handed_to j d ≡ [] =
        ap (λ x. handed_to x d) (sym ((bytes_eq_iff id j).0 t)) ∙ ap handed_in n in
      handed-insert id j [] d.conns ∙ rw t (sym here)
  | inr f ↦ handed-insert id j [] d.conns ∙ rw f refl
]

module _ (demux_on : Rpc → Bytes) where
  -- One turn of Run.
  unfoldable pub turn : Rpc → Demux → Exec Demux
  unfolding find_conn hand_to
  turn rpc d = hand_to (demux_on rpc) rpc (find_conn (demux_on rpc) d)

  unfoldable pub run : List Event → Demux → Exec Demux
  unfolding turn cancel
  run [] d = done d
  run (reads rpc ∷ events) d = turn rpc d >>= run events
  run (cancels id ∷ events) d = run events (cancel id d)

  -- The Rpcs of an identity, from the last time on that its connection was cancelled.
  abbrev pub since : Bytes → List Rpc → List Event → List Rpc
  since id rpcs [] = rpcs
  since id rpcs (reads rpc ∷ events) =
      since id (if demux_on rpc == id then rpcs ++ rpc ∷ [] else rpcs) events
  since id rpcs (cancels j ∷ events) = since id (if j == id then [] else rpcs) events

  -- A turn hands the Rpc to the connection of its identity and touches no other.
  turn-handed_to :
      (rpc : Rpc) (d : Demux)
      → (d' : Demux) × (turn rpc d ≡ done d')
        × ((id : Bytes)
            → handed_to id d'
              ≡ (if demux_on rpc == id then handed_to id d ++ rpc ∷ [] else handed_to id d))
  turn-handed_to rpc d = elim (Option-cases (lookup id d.conns)) [
    | inl n ↦
        let k : lookup id (new_conn id d).conns ≡ some fresh =
          unfold new_conn in lookup-insert_self id fresh d.conns in
        (
          found id rpc (new_conn id d) fresh,
          unfold turn in
              ap (hand_to id rpc) (find_conn-unknown id d n)
              ∙ hand_to-known id rpc (new_conn id d) fresh k,
          λ j.
              found-handed_to id j rpc (new_conn id d) fresh k
              ∙ ap (λ x. if id == j then x ++ rpc ∷ [] else x) (new_conn-handed_to id j d n),
        )
    | inr (c, k) ↦ (
      found id rpc d c,
      unfold turn in ap (hand_to id rpc) (find_conn-known id d c k) ∙ hand_to-known id rpc d c k,
      λ j. found-handed_to id j rpc d c k,
    )
  ]
    where
      id : Bytes
      id = demux_on rpc

      fresh : DemuxConn
      fresh = record { handed = [] }

  -- Run never sends on a closed channel as long as no connection is cancelled in the middle of a
  -- turn. Each connection is handed exactly the Rpcs of its identity, in order, that were read since
  -- it was last cancelled.
  pub run-handed_to :
      (events : List Event) (d : Demux)
      → (d' : Demux) × (run events d ≡ done d')
        × ((id : Bytes) → handed_to id d' ≡ since id (handed_to id d) events)
  unfolding run
  run-handed_to [] d = (d, refl, λ id. refl)
  run-handed_to (reads rpc ∷ events) d =
      let (d₁, e, h) = turn-handed_to rpc d in
      let (d', e', h') = run-handed_to events d₁ in
      (d', rw (e, run) e', λ id. h' id ∙ ap (λ x. since id x events) (h id))
  run-handed_to (cancels j ∷ events) d =
      let (d', e, h) = run-handed_to events (cancel j d) in
      (
        d',
        e,
        λ id. h id ∙ ap (λ x. since id x events) (unfold cancel in handed-delete j id d.conns),
      )
