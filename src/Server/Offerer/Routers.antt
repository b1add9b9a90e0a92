-- ===== src/Server/Offerer/Routers.antt =====
-- answerRouter and iceCandidateRouter keep the owners of the channels.
use yamrp.Prelude.{Bool-cases, Option-cases, String, inl, inr, ℕ, ◌==◌}
use yamrp.Server.Packets.{AnsPacket, IcePacket}
use yamrp.Server.Offerer.{
  OffererServer, Router, Thread, answer_response, deliver_answer, deliver_ice, forwarding, idle,
  returned, route_answer, route_ice, sending_ice, waiting_answer, waiting_ice,
}
use yamrp.Server.Offerer.Owners.{Ensures, Inv, ThreadIsFor, goes-Inv}

module _ (owner : ℕ → String) where
  pub route_answer-Inv :
      (p : AnsPacket) (s : OffererServer) (r : Router AnsPacket)
      → Inv owner s
      → Ensures (Inv owner) (route_answer p s r)
  unfolding route_answer
  route_answer-Inv p s idle v = elim (Option-cases (s.ans_chans p.answerer_id)) [
    | inl e ↦ rw (e, route_answer) v
    | inr (ch, e) ↦
        rw (e, route_answer)
          (record {
            ice_chans = v.ice_chans;
            ans_chans = v.ans_chans;
            ice_router = v.ice_router;
            ans_router = v.ans_chans p.answerer_id ch e;
            threads = v.threads;
          })
  ]
  route_answer-Inv p s (forwarding c q) v = tt

  pub route_ice-Inv :
      (p : IcePacket) (s : OffererServer) (r : Router IcePacket)
      → Inv owner s
      → Ensures (Inv owner) (route_ice p s r)
  unfolding route_ice
  route_ice-Inv p s idle v = elim (Option-cases (s.ice_chans p.answerer_id)) [
    | inl e ↦ rw (e, route_ice) v
    | inr (ch, e) ↦
        rw (e, route_ice)
          (record {
            ice_chans = v.ice_chans;
            ans_chans = v.ans_chans;
            ice_router = v.ice_chans p.answerer_id ch e;
            ans_router = v.ans_router;
            threads = v.threads;
          })
  ]
  route_ice-Inv p s (forwarding c q) v = tt

  pub deliver_answer-Inv :
      (i : ℕ) (t : Thread) (r : Router AnsPacket) (s : OffererServer)
      → Inv owner s
      → Ensures (Inv owner) (deliver_answer i t r s)
  unfolding deliver_answer
  deliver_answer-Inv i (waiting_answer ans ch) (forwarding to p) s v =
      elim (Bool-cases (ch == to)) [
        | inl e ↦
            rw (e, deliver_answer)
              (goes-Inv owner i (returned (answer_response p.answer))
                (record s { ans_router = idle }) tt
                (record {
                  ice_chans = v.ice_chans;
                  ans_chans = v.ans_chans;
                  ice_router = v.ice_router;
                  ans_router = tt;
                  threads = v.threads;
                }))
        | inr e ↦ rw (e, deliver_answer) tt
      ]
  deliver_answer-Inv i _ _ s v = tt

  pub deliver_ice-Inv :
      (i : ℕ) (t : Thread) (r : Router IcePacket) (s : OffererServer)
      → ThreadIsFor owner s.made t
      → Inv owner s
      → Ensures (Inv owner) (deliver_ice i t r s)
  unfolding deliver_ice
  deliver_ice-Inv i (waiting_ice ans ch) (forwarding to p) s n v = elim (Bool-cases (ch == to)) [
    | inl e ↦
        rw (e, deliver_ice)
          (goes-Inv owner i (sending_ice ans ch p.ice_candidate) (record s { ice_router = idle }) n
            (record {
              ice_chans = v.ice_chans;
              ans_chans = v.ans_chans;
              ice_router = tt;
              ans_router = v.ans_router;
              threads = v.threads;
            }))
    | inr e ↦ rw (e, deliver_ice) tt
  ]
  deliver_ice-Inv i _ _ s n v = tt
