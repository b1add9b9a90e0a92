-- ===== src/Server/Offerer/State.antt =====
-- The state of `OffererServer` of server/offerer.go.
use yamrp.Prelude.{Map, String, no_entries, suc, update, ℕ}
use yamrp.Errors.{Error}
use yamrp.Server.Packets.{AnsPacket, IcePacket, Offering}

-- What a call returns: a message, `nil`, or an error.
pub data Reply : Type 0 where
  offer_response : String → String → Reply
  answer_response : String → Reply
  closed_stream : Reply
  failed : Error → Reply

pub data Thread : Type 0 where
  -- no goroutine
  absent : Thread
  -- the goroutine of `SendOffer` that sleeps before it clears the entries
  sleeping : String → Thread
  -- `SendOffer` at its first and its second select: the request and the identifiers made for it
  notifying offering_ : (host offer ans off : String) → Thread
  -- `WaitForAnswer` at its select, on a channel
  waiting_answer : (ans : String) (ch : ℕ) → Thread
  -- `WaitForICECandidate` at its select; in `srv.Send`; in the deferred send on closeIceToAnsCh
  waiting_ice : (ans : String) (ch : ℕ) → Thread
  sending_ice : (ans : String) (ch : ℕ) (ice : String) → Thread
  closing_ice : (ans : String) → Reply → Thread
  -- `SendIceCandidate` at its select, with its goroutine in `Recv`, and in the send of a packet
  receiving : Thread
  pushing : IcePacket → Thread
  -- that goroutine when its call has returned: in `Recv`, in the send of a packet, and in
  -- `sig <- struct{}{}`, which nobody receives any more
  left_receiving : Thread
  left_pushing : IcePacket → Thread
  stuck : Thread
  returned : Reply → Thread

-- A router at its select, or in the send of a packet on a channel.
pub data Router (P : Type 0) : Type 0 where
  idle : Router P
  forwarding : ℕ → P → Router P

pub record OffererServer : Type 0 where
  pub ice_chans : Map ℕ  -- AnsID2iceToAnsChan
  pub ans_chans : Map ℕ  -- AnsID2AnsChan
  pub made : ℕ  -- channels made so far; all are unbuffered
  pub ice_router : Router IcePacket
  pub ans_router : Router AnsPacket
  pub threads : ℕ → Thread
  pub spawned : ℕ

pub data Output : Type 0 where
  silent : Output
  notify_host : String → Output
  send_offering : Offering → Output
  push_ice : IcePacket → Output
  close_ice : String → Output

-- NewOffererServer, and Serve, which starts the routers
unfoldable pub new_offerer_server : OffererServer
new_offerer_server = record {
  ice_chans = no_entries;
  ans_chans = no_entries;
  made = 0;
  ice_router = idle;
  ans_router = idle;
  threads = λ _. absent;
  spawned = 0;
}

abbrev pub spawn : Thread → OffererServer → OffererServer
spawn t s = record s { threads = update s.threads s.spawned t; spawned = suc s.spawned }

abbrev pub goes : ℕ → Thread → OffererServer → OffererServer
goes i t s = record s { threads = update s.threads i t }
