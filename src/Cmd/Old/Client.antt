-- ===== src/Cmd/Old/Client.antt =====
-- cmd/_bak/client/main.go: the program that makes the offer.
-- setRemoteDescription is given the slice of candidates as it is at the call: what the callback
-- appends later is appended to main's variable.
mod Lost
mod Pasting
mod Tests
mod Turns
use yamrp.Prelude.{
  Bool, List, Option, [], false, none, some, suc, true, zero, ℕ, ◌&&◌, ◌++◌, ◌==◌, ◌∷◌,
}
use yamrp.Errors.{Error}
use yamrp.Cmd.Old.{
  Bytes, Exit, Peer, PeerConnectionState, new_peer, on_connection_state_change, on_ice_candidate,
  panicked, send_text, signal_all, stop,
}

-- What base64, JSON and WebRTC return; a description is a D. Each call of WebRTC is made once.
pub record Externals (D : Type 0) : Type 0 where
  pub encode : Bytes → Bytes
  -- the bytes up to an error, and the error
  pub decode : Bytes → Bytes × Option Error
  pub unmarshal : Bytes → D × Option Error
  pub new_peer_connection : Option Error
  pub create_data_channel : Option Error
  pub create_offer : D × Option Error
  pub set_local_description : D → Option Error
  pub marshal : D → Bytes × Option Error
  pub set_remote_description : D → Option Error

-- Where main is: before its calls, before and in setRemoteDescription with what it was given, there
-- after SetRemoteDescription, in its loop, and at its last select.
pub data Place : Type 0 where
  starting offered asking blocked : Place
  scanning described : (pending_candidates : List Bytes) → Place

pub record Program : Type 0 where
  pub place : Place
  pub peer : Peer
  -- the offer that was printed, encoded
  pub offer : Option Bytes
  -- the candidates of the goroutines that have still to call AddICECandidate, in the order of their
  -- start, and the arguments of its calls so far, whose results nobody looks at
  pub adding : List Bytes
  pub added : List Bytes

abbrev pub new_program : Program
new_program = record { place = starting; peer = new_peer; offer = none; adding = []; added = [] }

-- What askIceCandidateFromStdin makes of a line.
pub data Asked : Type 0 where
  ends slice_panics : Asked
  fails : Error → Asked
  adds : Bytes → Asked

-- cand[:3] == "end"; `none` is a slice out of range
pub says_end : Bytes → Option Bool
says_end (a ∷ b ∷ c ∷ rest) = some (a == b'e' && (b == b'n' && c == b'd'))
says_end _ = none

pub data Event : Type 0 where
  -- main goes on: up to the offer, to the call of setRemoteDescription, over its last loop
  offers calls signals : Event
  -- Scanln returns for the description, and for a candidate
  scans asks : (line : Bytes) (err : Option Error) → Event
  -- the callbacks
  gathers : (candidate : Option Bytes) → Event
  changes : PeerConnectionState → Event
  ticks : (err : Option Error) → Event
  -- one of the goroutines calls AddICECandidate: that at a position among those that are left
  adds_one : ℕ → Event

-- if err != nil { panic(err) }
pub or_panic : Option Error → Program → Program → Program
or_panic none s next = next
or_panic (some e) s next = record s { peer = stop panicked s.peer }

-- the loop at the end of main, and its last select
pub asked : Asked → Program → Program
asked ends s = record s { place = blocked }
asked (fails e) s = record s { place = blocked }
asked slice_panics s = record s { peer = stop panicked s.peer }
asked (adds c) s = record s { adding = s.adding ++ c ∷ [] }

abbrev put_back : Bytes → Option (Bytes × List Bytes) → Option (Bytes × List Bytes)
put_back c none = none
put_back c (some (d, rest)) = some (d, c ∷ rest)

-- The element at a position, and the others
pub pick : ℕ → List Bytes → Option (Bytes × List Bytes)
pick i [] = none
pick zero (c ∷ cs) = some (c, cs)
pick (suc i) (c ∷ cs) = put_back c (pick i cs)

-- addICECandidate, in its goroutine
abbrev added_one : Program → Option (Bytes × List Bytes) → Option Program
added_one s none = none
added_one s (some (c, rest)) = some (record s { adding = rest; added = s.added ++ c ∷ [] })

abbrev pub with_peer : Program → Peer → Program
with_peer s p = record s { peer = p }

module _ {D : Type 0} (ext : Externals D) where
  -- main up to the print of the offer
  pub make_offer : Program → Program
  unfolding or_panic
  make_offer s =
      let (offer, offer_err) = ext.create_offer in
      let (payload, marshal_err) = ext.marshal offer in
      or_panic ext.new_peer_connection s (
        or_panic ext.create_data_channel s (
          or_panic offer_err s (
            or_panic (ext.set_local_description offer) s (
              or_panic marshal_err s
                (record s { place = offered; offer = some (ext.encode payload) })))))

  -- setRemoteDescription up to SetRemoteDescription; the error of base64 is not looked at.
  pub set_remote_description : List Bytes → Bytes → Option Error → Program → Program
  unfolding or_panic
  set_remote_description passed line err s =
      let (sdp, sdp_err) = ext.unmarshal (ext.decode line).0 in
      or_panic err s (
        or_panic sdp_err s (
          or_panic (ext.set_remote_description sdp) s
            (record s { place = described passed; peer = record s.peer { remote = true } })))

  pub ask_ice_candidate_from_stdin : Bytes → Option Error → Asked
  unfolding says_end
  ask_ice_candidate_from_stdin cand err =
      let (decoded, decode_err) = ext.decode cand in
      elim (says_end cand) [
        | none ↦ slice_panics
        | some true ↦ ends
        | some false ↦ elim err [
          | some e ↦ fails e
          | none ↦ elim decode_err [ some e ↦ fails e | none ↦ adds decoded ]
        ]
      ]

  pub go : Place → Event → Program → Option Program
  unfolding make_offer set_remote_description ask_ice_candidate_from_stdin asked pick
  go _ (adds_one i) s = added_one s (pick i s.adding)
  go starting offers s = some (make_offer s)
  go starting e s = none
  go offered calls s = some (record s { place = scanning s.peer.pending })
  go (scanning passed) (scans line err) s = some (set_remote_description passed line err s)
  go (described passed) signals s =
      some (record s { place = asking; peer = signal_all ext.encode passed s.peer })
  go asking (asks line err) s = some (asked (ask_ice_candidate_from_stdin line err) s)
  go _ (gathers c) s = some (with_peer s (on_ice_candidate ext.encode c s.peer))
  go _ (changes state) s = some (with_peer s (on_connection_state_change state s.peer))
  go _ (ticks err) s = some (with_peer s (send_text err s.peer))
  go _ _ s = none

  abbrev alive : Option Exit → Option Program → Option (Program × Unit {0})
  alive (some e) next = none
  alive none none = none
  alive none (some s) = some (s, tt)

  pub step : Event → Program → Option (Program × Unit {0})
  unfolding go
  step e s = alive s.peer.over (go s.place e s)
