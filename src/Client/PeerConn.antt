-- ===== src/Client/PeerConn.antt =====
-- client/webrtc_abstract.go: the wrapper of a peer connection, and its builder.
-- What WebRTC does is a parameter. A pointer is an Option, with `none` for nil.
mod Tests
use yamrp.Prelude.{Option, Option-cases, String, inl, inr, none, refl, some, ◌≡◌, ◌≢◌, ◌⊎◌}
use yamrp.Errors.{Error}

-- A value of an interface type: nil, or a pointer along with its type. A nil pointer that is
-- converted to the interface is not nil.
pub data Interface (A : Type 0) : Type 0 where
  nil_interface : Interface A
  holding : Option A → Interface A

-- PeerConnWrapper, which embeds a pointer
pub record PeerConnWrapper (C : Type 0) : Type 0 where
  pub peer_connection : Option C

-- NewPeerConnWrapperWithErr
new_peer_conn_wrapper_with_err :
    {C : Type 0} → Option C → Option Error → Option (PeerConnWrapper C) × Option Error
new_peer_conn_wrapper_with_err none err = (none, err)
new_peer_conn_wrapper_with_err (some pc) err = (some (record { peer_connection = some pc }), err)

-- NewPeerConnWrapper: whatever the pointer is
new_peer_conn_wrapper : {C : Type 0} → Option C → PeerConnWrapper C
new_peer_conn_wrapper pc = record { peer_connection = pc }

-- PeerConnWrapper.CreateDataChannel: the channel becomes a DataChannelAbstract. `create` is the
-- method of a peer connection.
pub create_data_channel :
    {C D Init : Type 0}
    → (create : Option C → String → Init → Option D × Option Error) → PeerConnWrapper C
    → String
    → Init
    → Interface D × Option Error
create_data_channel create p label init =
    let made = create p.peer_connection label init in (holding made.0, made.1)

-- peerConnBuilderImpl.NewPeerConnection: the wrapper becomes a peerConnAbstract. `make` is
-- webrtc.NewPeerConnection.
unfoldable pub new_peer_connection :
    {C Config : Type 0}
    → (make : Config → Option C × Option Error) → Config
    → Interface (PeerConnWrapper C) × Option Error
unfolding new_peer_conn_wrapper_with_err
new_peer_connection make config =
    let made = make config in
    let wrapped = new_peer_conn_wrapper_with_err made.0 made.1 in (holding wrapped.0, wrapped.1)

module _ {C Config D Init : Type 0} (make : Config → Option C × Option Error)
    (create : Option C → String → Init → Option D × Option Error) (config : Config) where
  -- WebRTC failed, and the interface holds a nil pointer.
  abbrev pub NotBuilt : Type 0
  NotBuilt =
      (e : Error) × ((make config).1 ≡ some e)
      × (new_peer_connection make config ≡ (holding none, some e))

  -- The interface holds a wrapper, and CreateDataChannel asks the connection that WebRTC made.
  abbrev pub Built : String → Init → Type 0
  Built label init =
      (c : C) × (p : PeerConnWrapper C) × ((make config).0 ≡ some c)
      × (new_peer_connection make config ≡ (holding (some p), (make config).1))
      × (create_data_channel create p label init
          ≡ (holding (create (some c) label init).0, (create (some c) label init).1))

  -- Let webrtc.NewPeerConnection return no connection only along with an error. Then
  -- NewPeerConnection returns an interface that is not nil: either WebRTC failed, and it holds a
  -- nil pointer beside that error, or it holds a wrapper, beside the error of WebRTC if there is
  -- one, and CreateDataChannel asks the connection that WebRTC made and returns what that returns.
  pub never_nil :
      (label : String) (init : Init)
      → ((make config).0 ≡ none → (make config).1 ≢ none)
      → ((new_peer_connection make config).0 ≢ nil_interface) × (NotBuilt ⊎ Built label init)
  unfolding new_peer_connection create_data_channel
  never_nil label init or_error = (
    λ h. cc,
    elim (Option-cases (make config).0) [
      | inl none_made ↦ elim (Option-cases (make config).1) [
        | inl ended ↦ absurd (or_error none_made ended)
        | inr (e, failed) ↦ inl (e, failed, rw (none_made, failed) refl)
      ]
      | inr (c, made) ↦ inr (c, record { peer_connection = some c }, made, rw made refl, refl)
    ],
  )
