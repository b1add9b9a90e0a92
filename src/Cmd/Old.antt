-- ===== src/Cmd/Old.antt =====
-- cmd/_bak: the two earlier programs, whose users carry descriptions and candidates by hand. Here is
-- what they share: the callbacks of the peer connection. A text is its bytes; base64 and JSON are
-- parameters.
pub mod Client
pub mod Server
use yamrp.Prelude.{Bool, List, Option, [], false, if◌then◌else◌, none, some, suc, ℕ, ◌++◌, ◌∷◌}
use yamrp.Errors.{Error}

abbrev pub Bytes : Type 0
Bytes = List ℕ

-- os.Exit(0), and a panic
pub data Exit : Type 0 where
  exited panicked : Exit

-- The states of a connection that the callback tells apart.
pub data PeerConnectionState : Type 0 where
  failed closed other_state : PeerConnectionState

pub record Peer : Type 0 where
  -- whether SetRemoteDescription has succeeded, so that RemoteDescription is not nil
  pub remote : Bool
  -- main's pendingCandidates
  pub pending : List Bytes
  -- the candidates that were printed, encoded
  pub printed : List Bytes
  -- the messages that were sent on the data channel
  pub messages : ℕ
  -- how the program ended, if it has
  pub over : Option Exit

abbrev pub new_peer : Peer
new_peer = record { remote = false; pending = []; printed = []; messages = 0; over = none }

pub stop : Exit → Peer → Peer
stop e p = record p { over = some e }

module _ (encode : Bytes → Bytes) where
  -- signalCandidate, which returns nil
  pub signal_candidate : Bytes → Peer → Peer
  signal_candidate c p = record p { printed = p.printed ++ encode c ∷ [] }

  -- the callback of OnICECandidate
  pub on_ice_candidate : Option Bytes → Peer → Peer
  unfolding signal_candidate
  on_ice_candidate none p = p
  on_ice_candidate (some c) p =
      if p.remote then signal_candidate c p else record p { pending = p.pending ++ c ∷ [] }

  -- the loop over the candidates that setRemoteDescription was given
  pub signal_all : List Bytes → Peer → Peer
  unfolding signal_candidate
  signal_all [] p = p
  signal_all (c ∷ cs) p = signal_all cs (signal_candidate c p)

-- the callback of OnConnectionStateChange
pub on_connection_state_change : PeerConnectionState → Peer → Peer
unfolding stop
on_connection_state_change failed p = stop exited p
on_connection_state_change closed p = stop exited p
on_connection_state_change other_state p = p

-- a turn of the loop of OnOpen, on what SendText returns
pub send_text : Option Error → Peer → Peer
unfolding stop
send_text none p = record p { messages = suc p.messages }
send_text (some e) p = stop panicked p
