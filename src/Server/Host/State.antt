-- ===== src/Server/Host/State.antt =====
-- The state of `HostServerImpl` of server/host.go.
use yamrp.Prelude.{Bool, Map, Option, String, ℕ}
use yamrp.Errors.{Error}
use yamrp.Chan.{Chan, make_chan}

pub data HostClientStatus : Type 0 where
  idle active : HostClientStatus

pub record HostClient : Type 0 where
  pub status : HostClientStatus
  pub offer_sig : Chan (Unit {0})
  pub stop_listening_new_offer : Chan (Unit {0})

-- The goroutine that waits on the return channel stands for that channel.
pub record HostClientRequest : Type 0 where
  pub id : String
  pub return_to : ℕ

pub data Reply : Type 0 where
  closed_stream : Reply
  failed : Error → Reply

pub data Thread : Type 0 where
  absent : Thread
  -- the goroutine of registerHost: on its timer, and in its send on gcHostCh
  gc_timer gc_pushing : String → Thread
  -- the goroutine of handleNewOffer: at its select, and in its send on closeHostCh
  notifying : ℕ → String → Thread
  close_pushing : String → Thread
  -- ListenNewOffer: in the send of its request, in the receive of the reply (first without it, then
  -- with it), at its select, and in stream.Send
  requesting awaiting : String → Thread
  replied : String → Option ℕ → Thread
  listening streaming : String → ℕ → Thread
  returned : Reply → Thread

pub record HostServer : Type 0 where
  pub clients : Map ℕ
  pub heap : ℕ → HostClient
  pub made : ℕ
  pub gc_host_ch : Chan String
  pub close_host_ch : Chan String
  pub request_ch : Chan HostClientRequest
  pub threads : ℕ → Thread
  pub spawned : ℕ
  pub panicked : Bool

abbrev pub new_client : HostClient
new_client = record {
  status = idle;
  offer_sig = make_chan 1024;
  stop_listening_new_offer = make_chan 1;
}
