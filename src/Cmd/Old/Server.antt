-- ===== src/Cmd/Old/Server.antt =====
-- cmd/_bak/server/main.go: the program that answers the offer. Its askIceCandidateFromStdin has no
-- caller.
mod Early
mod Printed
mod Tests
use yamrp.Prelude.{List, Option, none, some, true}
use yamrp.Errors.{Error}
use yamrp.Cmd.Old.{
  Bytes, Exit, Peer, PeerConnectionState, new_peer, on_connection_state_change, on_ice_candidate,
  panicked, send_text, signal_all, stop,
}

-- What base64, JSON and WebRTC return; a description is a D. Each call of WebRTC is made once.
pub record Externals (D : Type 0) : Type 0 where
  pub encode : Bytes → Bytes
  pub decode : Bytes → Bytes × Option Error
  pub unmarshal : Bytes → D × Option Error
  pub new_peer_connection : Option Error
  pub set_remote_description : D → Option Error
  pub create_answer : D × Option Error
  pub marshal : D → Bytes × Option Error
  pub set_local_description : D → Option Error
  pub add_ice_candidate : Bytes → Option Error

-- Where main is: before its calls; in setRemoteDescription with the candidates that it was given,
-- before Scanln, after SetRemoteDescription and after SetLocalDescription; at its last select.
pub data Place (D : Type 0) : Type 0 where
  starting blocked : Place D
  scanning described answered : (pending_candidates : List Bytes) → Place D

pub record Program (D : Type 0) : Type 0 where
  pub place : Place D
  pub peer : Peer
  -- the answer that was printed, encoded
  pub answer : Option Bytes

abbrev pub new_program : {D : Type 0} → Program D
new_program = record { place = starting; peer = new_peer; answer = none }

pub data Event : Type 0 where
  -- main goes on: to Scanln, to the local description, over its last loop
  starts answers signals : Event
  scans : (line : Bytes) (err : Option Error) → Event
  -- the callbacks
  gathers : (candidate : Option Bytes) → Event
  changes : PeerConnectionState → Event
  ticks : (err : Option Error) → Event

module _ {D : Type 0} where
  -- if err != nil { panic(err) }
  pub or_panic : Option Error → Program D → Program D → Program D
  or_panic none s next = next
  or_panic (some e) s next = record s { peer = stop panicked s.peer }

  module _ (ext : Externals D) where
    -- askIceCandidateFromStdin, on what Scanln returns
    pub ask_ice_candidate_from_stdin : Bytes → Option Error → Option Error
    ask_ice_candidate_from_stdin cand (some e) = some e
    ask_ice_candidate_from_stdin cand none =
        let (decoded, decode_err) = ext.decode cand in
        elim decode_err [ some e ↦ some e | none ↦ ext.add_ice_candidate decoded ]

    -- main up to Scanln in setRemoteDescription
    pub start : Program D → Program D
    unfolding or_panic
    start s = or_panic ext.new_peer_connection s (record s { place = scanning s.peer.pending })

    -- up to SetRemoteDescription; the error of base64 is not looked at.
    pub set_remote_description : List Bytes → Bytes → Option Error → Program D → Program D
    unfolding or_panic
    set_remote_description passed line err s =
        let (sdp, sdp_err) = ext.unmarshal (ext.decode line).0 in
        or_panic err s (
          or_panic sdp_err s (
            or_panic (ext.set_remote_description sdp) s
              (record s { place = described passed; peer = record s.peer { remote = true } })))

    -- CreateAnswer, the print of the answer, and SetLocalDescription
    pub make_answer : List Bytes → Program D → Program D
    unfolding or_panic
    make_answer passed s =
        let (answer, answer_err) = ext.create_answer in
        let (payload, marshal_err) = ext.marshal answer in
        let printed : Program D = record s { answer = some (ext.encode payload) } in
        or_panic answer_err s (
          or_panic marshal_err s (
            or_panic (ext.set_local_description answer) printed
              (record printed { place = answered passed })))

    abbrev with_peer : Program D → Peer → Program D
    with_peer s p = record s { peer = p }

    pub go : Place D → Event → Program D → Option (Program D)
    unfolding start set_remote_description make_answer
    go starting starts s = some (start s)
    go starting e s = none
    go (scanning passed) (scans line err) s = some (set_remote_description passed line err s)
    go (described passed) answers s = some (make_answer passed s)
    go (answered passed) signals s =
        some (record s { place = blocked; peer = signal_all ext.encode passed s.peer })
    go l (gathers c) s = some (with_peer s (on_ice_candidate ext.encode c s.peer))
    go l (changes state) s = some (with_peer s (on_connection_state_change state s.peer))
    go l (ticks err) s = some (with_peer s (send_text err s.peer))
    go l e s = none

    abbrev alive : Option Exit → Option (Program D) → Option (Program D × Unit {0})
    alive (some e) next = none
    alive none none = none
    alive none (some s) = some (s, tt)

    pub step : Event → Program D → Option (Program D × Unit {0})
    unfolding go
    step e s = alive s.peer.over (go s.place e s)
