-- ===== src/Server/Answerer/State.antt =====
-- The state of `AnswererServerImpl` of server/anserer.go.
use yamrp.Prelude.{Map, String, insert, no_entries, suc, update, ℕ}
use yamrp.Errors.{Error}
use yamrp.Chan.{Chan, make_chan}
use yamrp.Server.Packets.{AnsPacket, IcePacket, Offering}

-- What a call returns: a message, `nil`, or an error.
pub data Reply : Type 0 where
  offer_response : (answerer_id body : String) → Reply
  answer_response closed_stream : Reply
  failed : Error → Reply

pub data Thread : Type 0 where
  -- no goroutine
  absent : Thread
  -- the goroutine that sleeps before it clears an entry of hostID2waitingCh, of AnsID2iceToAnsChan
  sleeping_offer sleeping_ice : String → Thread
  -- WaitForOffer at its select, on a channel, and before its second critical section
  waiting_offer : (host : String) (ch : ℕ) → Thread
  noting : (host : String) → Offering → Thread
  -- SendAnswer at its select
  answering : AnsPacket → Thread
  -- SendIceCandidate at its select, with its goroutine in Recv, and in the send of a packet
  receiving : Thread
  pushing : IcePacket → Thread
  -- that goroutine when its call has returned: in Recv, in the send of a packet, and in
  -- `sig <- struct{}{}`, which nobody receives any more
  left_receiving : Thread
  left_pushing : IcePacket → Thread
  stuck : Thread
  -- WaitForICECandidate at its select, and in srv.Send
  waiting_ice : (ans : String) (ch : ℕ) → Thread
  sending_ice : (ans : String) (ch : ℕ) (ice : String) → Thread
  returned : Reply → Thread

-- A router at its select, or in the send of a packet on a channel.
pub data Router (P : Type 0) : Type 0 where
  idle : Router P
  forwarding : ℕ → P → Router P

pub record AnswererServer : Type 0 where
  pub waiting_chs : Map ℕ  -- hostID2waitingCh
  pub offers : ℕ → Chan Offering  -- the channels made for it, by number
  pub made_offers : ℕ
  pub ice_chans : Map ℕ  -- AnsID2iceToAnsChan
  pub ices : ℕ → Chan String
  pub made_ices : ℕ
  pub offer_router : Router Offering
  pub ice_router : Router IcePacket
  pub threads : ℕ → Thread
  pub spawned : ℕ

-- What the service sends to the offerer service.
pub data Output : Type 0 where
  silent : Output
  push_answer : AnsPacket → Output
  push_ice : IcePacket → Output

-- NewAnswererServer, and Serve, which starts the routers
unfoldable pub new_answerer_server : AnswererServer
new_answerer_server = record {
  waiting_chs = no_entries;
  offers = λ _. make_chan 1;
  made_offers = 0;
  ice_chans = no_entries;
  ices = λ _. make_chan 1024;
  made_ices = 0;
  offer_router = idle;
  ice_router = idle;
  threads = λ _. absent;
  spawned = 0;
}

abbrev pub spawn : Thread → AnswererServer → AnswererServer
spawn t s = record s { threads = update s.threads s.spawned t; spawned = suc s.spawned }

abbrev pub goes : ℕ → Thread → AnswererServer → AnswererServer
goes i t s = record s { threads = update s.threads i t }

-- A new channel for a host, of capacity 1, and for an answerer, of capacity 1024.
abbrev pub make_offers : String → AnswererServer → AnswererServer
make_offers host s = record s {
  waiting_chs = insert s.waiting_chs host s.made_offers;
  offers = update s.offers s.made_offers (make_chan 1);
  made_offers = suc s.made_offers;
}

abbrev pub make_ices : String → AnswererServer → AnswererServer
make_ices ans s = record s {
  ice_chans = insert s.ice_chans ans s.made_ices;
  ices = update s.ices s.made_ices (make_chan 1024);
  made_ices = suc s.made_ices;
}
