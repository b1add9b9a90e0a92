-- ===== src/Client/PeerConn/Tests.antt =====
-- A builder that refuses the configuration 0. A connection, a data channel and its options are
-- numbers.
use yamrp.Prelude.{Option, String, none, refl, some, suc, zero, ℕ, ◌+◌, ◌≡◌, ◌≢◌, ◌⊎◌}
use yamrp.Errors.{Error, other}
use yamrp.Client.PeerConn.{Built, NotBuilt, holding, never_nil, new_peer_connection, nil_interface}

abbrev make : ℕ → Option ℕ × Option Error
make zero = (none, some (other 1))
make (suc n) = (some n, none)

abbrev create : Option ℕ → String → ℕ → Option ℕ × Option Error
create none label init = (none, some (other 2))
create (some n) label init = (some (n + init), none)

never_nil_example :
    ((new_peer_connection make 0).0 ≢ nil_interface)
    × (NotBuilt make create 0 ⊎ Built make create 0 "data" 5)
never_nil_example = never_nil make create 0 "data" 5 (λ gone. λ h. cc)

connection_is_wrapped :
    new_peer_connection make 4 ≡ (holding (some (record { peer_connection = some 3 })), none)
unfolding new_peer_connection
connection_is_wrapped = refl
