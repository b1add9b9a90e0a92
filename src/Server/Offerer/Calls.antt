-- ===== src/Server/Offerer/Calls.antt =====
-- SendOffer, WaitForAnswer and the two streams of candidates keep the owners of the channels.
use yamrp.Prelude.{
  Option, Option-cases, String, arith, erase, erase_all, inl, inr, insert_all, none, some, suc, ℕ,
}
use yamrp.Errors.{Error, eof}
use yamrp.Server.Packets.{IcePacket}
use yamrp.Server.Offerer.{
  OffererServer, Thread, absent, clean_up, closing_ice, ctx_done, ice_closed, ice_pushed,
  ice_received, ice_sent, left_pushing, left_receiving, notify, notifying, offer_taken, offering_,
  pushing, receiving, returned, send_offer, sending_ice, sleeping, wait_for_answer,
  wait_for_ice_candidate, waiting_answer, waiting_ice,
}
use yamrp.Server.Offerer.Owners.{
  Ensures, Inv, IsFor, ThreadIsFor, adopt, adopt-IsFor, adopt-ans_router, adopt-ice_router,
  adopt-thread, goes-Inv, spawn-Inv,
}

module _ (owner : ℕ → String) where
  pub clean_up-Inv :
      (i : ℕ) (t : Thread) (s : OffererServer) → Inv owner s → Ensures (Inv owner) (clean_up i t s)
  unfolding clean_up
  clean_up-Inv i (sleeping ans) s v = goes-Inv owner i absent _ tt (record {
    ice_chans = erase_all (λ k c. IsFor owner s.made c k) s.ice_chans ans v.ice_chans;
    ans_chans = erase_all (λ k c. IsFor owner s.made c k) s.ans_chans ans v.ans_chans;
    ice_router = v.ice_router;
    ans_router = v.ans_router;
    threads = v.threads;
  })
  clean_up-Inv i _ s v = tt

  pub notify-Inv :
      (i : ℕ) (t : Thread) (s : OffererServer) → Inv owner s → Ensures (Inv owner) (notify i t s)
  unfolding notify
  notify-Inv i (notifying host offer ans off) s v = goes-Inv owner i _ s tt v
  notify-Inv i _ s v = tt

  pub offer_taken-Inv :
      (i : ℕ) (t : Thread) (s : OffererServer)
      → Inv owner s
      → Ensures (Inv owner) (offer_taken i t s)
  unfolding offer_taken
  offer_taken-Inv i (offering_ host offer ans off) s v = goes-Inv owner i _ s tt v
  offer_taken-Inv i _ s v = tt

  pub ctx_done-Inv :
      (i : ℕ) (t : Thread) (s : OffererServer) → Inv owner s → Ensures (Inv owner) (ctx_done i t s)
  unfolding ctx_done
  ctx_done-Inv i (notifying host offer ans off) s v = goes-Inv owner i _ s tt v
  ctx_done-Inv i (offering_ host offer ans off) s v = goes-Inv owner i _ s tt v
  ctx_done-Inv i (waiting_answer ans ch) s v = goes-Inv owner i _ s tt v
  ctx_done-Inv i (waiting_ice ans ch) s v = goes-Inv owner i _ s tt v
  ctx_done-Inv i receiving s v = spawn-Inv owner left_receiving _ tt (goes-Inv owner i _ s tt v)
  ctx_done-Inv i (pushing p) s v = spawn-Inv owner (left_pushing p) _ tt (goes-Inv owner i _ s tt v)
  ctx_done-Inv i _ s v = tt

  pub wait_for_answer-Inv :
      (ans : String) (s : OffererServer) → Inv owner s → Ensures (Inv owner) (wait_for_answer ans s)
  unfolding wait_for_answer
  wait_for_answer-Inv ans s v = elim (Option-cases (s.ans_chans ans)) [
    | inl e ↦ rw (e, wait_for_answer) (spawn-Inv owner _ s tt v)
    | inr (ch, e) ↦
        rw (e, wait_for_answer) (spawn-Inv owner (waiting_answer ans ch) s (v.ans_chans ans ch e) v)
  ]

  pub wait_for_ice-Inv :
      (ans : String) (s : OffererServer)
      → Inv owner s
      → Ensures (Inv owner) (wait_for_ice_candidate ans s)
  unfolding wait_for_ice_candidate
  wait_for_ice-Inv ans s v = elim (Option-cases (s.ice_chans ans)) [
    | inl e ↦ rw (e, wait_for_ice_candidate) (spawn-Inv owner _ s tt v)
    | inr (ch, e) ↦
        rw (e, wait_for_ice_candidate)
          (spawn-Inv owner (waiting_ice ans ch) s (v.ice_chans ans ch e) v)
  ]

  pub ice_sent-Inv :
      (i : ℕ) (t : Thread) (e : Option Error) (s : OffererServer)
      → ThreadIsFor owner s.made t
      → Inv owner s
      → Ensures (Inv owner) (ice_sent i t e s)
  unfolding ice_sent
  ice_sent-Inv i (sending_ice ans ch ice) none s n v = goes-Inv owner i (waiting_ice ans ch) s n v
  ice_sent-Inv i (sending_ice ans ch ice) (some eof) s n v = goes-Inv owner i _ s tt v
  ice_sent-Inv i (sending_ice ans ch ice) (some _) s n v = goes-Inv owner i _ s tt v
  ice_sent-Inv i _ e s n v = tt

  pub ice_closed-Inv :
      (i : ℕ) (t : Thread) (s : OffererServer)
      → Inv owner s
      → Ensures (Inv owner) (ice_closed i t s)
  unfolding ice_closed
  ice_closed-Inv i (closing_ice ans r) s v =
      goes-Inv owner i (returned r) (record s { ice_chans = erase s.ice_chans ans }) tt
        (record {
          ice_chans = erase_all (λ k c. IsFor owner s.made c k) s.ice_chans ans v.ice_chans;
          ans_chans = v.ans_chans;
          ice_router = v.ice_router;
          ans_router = v.ans_router;
          threads = v.threads;
        })
  ice_closed-Inv i _ s v = tt

  pub ice_received-Inv :
      (i : ℕ) (t : Thread) (m : Option IcePacket) (s : OffererServer)
      → Inv owner s
      → Ensures (Inv owner) (ice_received i t m s)
  unfolding ice_received
  ice_received-Inv i receiving none s v = v
  ice_received-Inv i receiving (some p) s v = goes-Inv owner i _ s tt v
  ice_received-Inv i left_receiving none s v = goes-Inv owner i _ s tt v
  ice_received-Inv i left_receiving (some p) s v = goes-Inv owner i _ s tt v
  ice_received-Inv i _ m s v = tt

  pub ice_pushed-Inv :
      (i : ℕ) (t : Thread) (s : OffererServer)
      → Inv owner s
      → Ensures (Inv owner) (ice_pushed i t s)
  unfolding ice_pushed
  ice_pushed-Inv i (pushing p) s v = goes-Inv owner i _ s tt v
  ice_pushed-Inv i (left_pushing p) s v = goes-Inv owner i _ s tt v
  ice_pushed-Inv i _ s v = tt

pub send_offer-Inv :
    (owner : ℕ → String) (host offer ans off : String) (s : OffererServer)
    → Inv owner s
    → Ensures (Inv (adopt owner s.made ans)) (send_offer host offer ans off s)
unfolding send_offer
send_offer-Inv owner host offer ans off s v = spawn-Inv o' (notifying host offer ans off) _ tt (
    spawn-Inv o' (sleeping ans) _ tt (record {
      ice_chans =
          insert_all For s.ice_chans ans s.made
            (λ k c h. adopt-IsFor owner ans s.made k c (v.ice_chans k c h)) (ground arith);
      ans_chans =
          insert_all For s.ans_chans ans (suc s.made)
            (λ k c h. adopt-IsFor owner ans s.made k c (v.ans_chans k c h)) (ground arith);
      ice_router = adopt-ice_router owner ans s.made s.ice_router v.ice_router;
      ans_router = adopt-ans_router owner ans s.made s.ans_router v.ans_router;
      threads = λ j. adopt-thread owner ans s.made (s.threads j) (v.threads j);
    }))
  where
    o' : ℕ → String
    o' = adopt owner s.made ans

    For : String → ℕ → Type 0
    For k c = IsFor o' (suc (suc s.made)) c k
