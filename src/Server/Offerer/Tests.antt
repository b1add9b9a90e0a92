-- ===== src/Server/Offerer/Tests.antt =====
-- Runs of the services, and the theorems about them at concrete schedules.
use yamrp.Schedules
use yamrp.Server.Offerer.Expiry.{IsCleared, mapped-IsCleared}
use yamrp.Prelude.{
  List, [], erase, inl, insert, no_entries, none, refl, some, update, update_all, ℕ, ◌∷◌, ◌≡◌,
}
use yamrp.Server.Packets.{AnsPacket, IcePacket}
use yamrp.Server.Offerer.{
  Event, OffererServer, absent, answer_arrives, answer_meets, answer_response, forwarding,
  ice_arrives, idle, new_offerer_server, notified, notifying, offer_response, offered, offering_,
  returned, run, sends_offer, silent, sleep_ends, sleeping, step, waiting_answer, waiting_ice,
  waits_for_answer, waits_for_ice,
}
use yamrp.Server.Offerer.Routing.{AnswerMeets, answer_reaches_its_call}
use yamrp.Server.Offerer.Blocked.{NotWaiting}
use yamrp.Server.Offerer.Deadlock.{unreceived_answer_blocks}

-- One call of SendOffer, whose offer the other services take: goroutine 0 sleeps, 1 returned.
abbrev offered_once : List Event
offered_once = sends_offer "host" "sdp" "ans" "off" ∷ notified 1 ∷ offered 1 ∷ []

abbrev answer : AnsPacket
answer = record { answerer_id = "ans"; answer = "sdp'" }

-- ... and a call of WaitForAnswer for it, goroutine 2, when its answer comes.
abbrev awaited : List Event
awaited = sends_offer "host" "sdp" "ans" "off" ∷ waits_for_answer "ans" ∷ answer_arrives answer ∷ []

abbrev awaited_state : OffererServer
awaited_state = record {
  ice_chans = insert no_entries "ans" 0;
  ans_chans = insert no_entries "ans" 1;
  made = 2;
  ice_router = idle;
  ans_router = forwarding 1 answer;
  threads =
      update
        (update (update (λ _. absent) 0 (sleeping "ans")) 1 (notifying "host" "sdp" "ans" "off")) 2
        (waiting_answer "ans" 1);
  spawned = 3;
}

awaited_runs : run awaited new_offerer_server ≡ some awaited_state
unfolding run step new_offerer_server
awaited_runs = refl

abbrev answered_state : OffererServer
answered_state = record awaited_state {
  ans_router = idle;
  threads = update awaited_state.threads 2 (returned (answer_response "sdp'"));
}

answer_reaches_its_call_example : AnswerMeets 2 awaited_state answered_state
unfolding step new_offerer_server
answer_reaches_its_call_example = answer_reaches_its_call awaited 2 {out = silent} awaited_runs refl

-- A call of WaitForICECandidate, goroutine 2, when a candidate comes.
abbrev candidate : IcePacket
candidate = record { answerer_id = "ans"; ice_candidate = "udp" }

abbrev ice_awaited : List Event
ice_awaited =
    sends_offer "host" "sdp" "ans" "off" ∷ waits_for_ice "ans" ∷ ice_arrives candidate ∷ []

abbrev ice_awaited_state : OffererServer
ice_awaited_state = record {
  ice_chans = insert no_entries "ans" 0;
  ans_chans = insert no_entries "ans" 1;
  made = 2;
  ice_router = forwarding 0 candidate;
  ans_router = idle;
  threads =
      update
        (update (update (λ _. absent) 0 (sleeping "ans")) 1 (notifying "host" "sdp" "ans" "off")) 2
        (waiting_ice "ans" 0);
  spawned = 3;
}

ice_awaited_runs : run ice_awaited new_offerer_server ≡ some ice_awaited_state
unfolding run step new_offerer_server
ice_awaited_runs = refl

-- The offer is out, and nobody waits for its answer yet.
abbrev offered_state : OffererServer
offered_state = record {
  ice_chans = insert no_entries "ans" 0;
  ans_chans = insert no_entries "ans" 1;
  made = 2;
  ice_router = idle;
  ans_router = idle;
  threads =
      update
        (update
          (update (update (λ _. absent) 0 (sleeping "ans")) 1 (notifying "host" "sdp" "ans" "off"))
          1 (offering_ "host" "sdp" "ans" "off"))
        1 (returned (offer_response "off" "ans"));
  spawned = 2;
}

offered_runs : run offered_once new_offerer_server ≡ some offered_state
unfolding run step new_offerer_server
offered_runs = refl

abbrev blocked_state : OffererServer
blocked_state = record offered_state {
  ice_chans = erase offered_state.ice_chans "ans";
  ans_chans = erase offered_state.ans_chans "ans";
  ans_router = forwarding 1 answer;
  threads = update offered_state.threads 0 absent;
}

nobody_waits : (j : ℕ) → NotWaiting 1 (offered_state.threads j)
nobody_waits =
    update_all (NotWaiting 1) _ 1 _
      (update_all (NotWaiting 1) _ 1 _
        (update_all (NotWaiting 1) _ 1 _ (update_all (NotWaiting 1) (λ _. absent) 0 _ (λ j. tt) tt)
          tt)
        tt)
      tt

blocked_runs : run (answer_arrives answer ∷ sleep_ends 0 ∷ []) offered_state ≡ some blocked_state
unfolding run step
blocked_runs = refl

unreceived_answer_blocks_example :
    (blocked_state.ans_router ≡ forwarding 1 answer)
    × ((q : AnsPacket) → step (answer_arrives q) blocked_state ≡ none)
    × ((j : ℕ) → step (answer_meets j) blocked_state ≡ none)
unreceived_answer_blocks_example =
    unreceived_answer_blocks offered_once [] 0 1 answer offered_runs refl refl refl nobody_waits
      blocked_runs

-- While the call waits for its answer, its channels are in the maps.
mapped-IsCleared_example : IsCleared awaited_state "ans"
unfolding Schedules.run step new_offerer_server
mapped-IsCleared_example =
    mapped-IsCleared awaited "ans" {s = awaited_state} refl (inl (λ gone. cc gone))
