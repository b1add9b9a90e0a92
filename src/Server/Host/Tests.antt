-- ===== src/Server/Host/Tests.antt =====
-- Runs of the host service, and the theorems about it at concrete schedules.
use yamrp.Prelude.{
  List, Option, String, [], arith, eq_iff, erase, false, insert, no_entries, none, refl, some,
  update, update_all, ℕ, ◌∷◌, ◌≡◌, ◌≢◌,
}
use yamrp.Errors.{canceled}
use yamrp.Chan.{make_chan, receive, send}
use yamrp.Server.Host.{
  Event, HostServer, absent, active, alive_step, awaiting, chk_host_idle, failed, fire, fires,
  gc_arrives, gc_pushing, gc_timer, goes_on, handle_host_client_request, handle_new_offer,
  host_arrives, listening, listens, new_client, new_host_server, offer_arrives, offer_sent, proceed,
  register_host, replied, request_arrives, requesting, returned, run, send_returns, step, stops,
}
use yamrp.Server.Host.Orphans.{NotNotifying}
use yamrp.Server.Host.Deaf.{late_listener_is_deaf}
use yamrp.Server.Host.Stops.{Ends, SendFailed, listen_never_stops}

-- A host registers and listens, and its registration's timer fires before the call goes on.
abbrev race : List Event
race = host_arrives "h" ∷ listens "h" ∷ goes_on 1 ∷ request_arrives ∷ fires 0 ∷ goes_on 0 ∷ []

abbrev race_state : HostServer
race_state = record {
  clients = insert no_entries "h" 0;
  heap = update (λ _. new_client) 0 new_client;
  made = 1;
  gc_host_ch = record { capacity = 1024; queue = "h" ∷ [] };
  close_host_ch = make_chan 1024;
  request_ch = make_chan 1024;
  threads =
      update
        (update
          (update
            (update (update (update (λ _. absent) 0 (gc_timer "h")) 1 (requesting "h")) 1
              (awaiting "h"))
            1 (replied "h" (some 0)))
          0 (gc_pushing "h"))
        0 absent;
  spawned = 2;
  panicked = false;
}

race_runs : run race new_host_server ≡ some race_state
unfolding run step alive_step new_host_server register_host proceed fire handle_host_client_request
    send receive
race_runs = refl

-- A host listens, gets the signal of an offer, and the Send of its stream fails.
abbrev broken_stream : List Event
broken_stream =
    host_arrives "h"
    ∷ listens "h"
    ∷ goes_on 1
    ∷ request_arrives
    ∷ goes_on 1
    ∷ offer_arrives "h"
    ∷ goes_on 2
    ∷ goes_on 1
    ∷ send_returns 1 (some canceled)
    ∷ []

abbrev reached : Option HostServer → HostServer
reached none = new_host_server
reached (some s) = s

abbrev broken_state : HostServer
broken_state = reached (run broken_stream new_host_server)

broken_call_ended : broken_state.threads 1 ≡ returned (failed canceled)
unfolding run step alive_step proceed register_host handle_host_client_request handle_new_offer
    offer_sent new_host_server send receive
broken_call_ended = refl

listen_never_stops_example :
    Ends (SendFailed broken_stream) 1 (broken_state.threads 1)
    × (step (stops 1) broken_state ≡ none)
unfolding run step alive_step proceed register_host handle_host_client_request handle_new_offer
    offer_sent new_host_server send receive
listen_never_stops_example = listen_never_stops broken_stream {s = broken_state} refl 1

nobody_notifies : (j : ℕ) → NotNotifying 0 (race_state.threads j)
nobody_notifies =
    update_all (NotNotifying 0) _ 0 _
      (update_all (NotNotifying 0) _ 0 _
        (update_all (NotNotifying 0) _ 1 _
          (update_all (NotNotifying 0) _ 1 _
            (update_all (NotNotifying 0) _ 1 _
              (update_all (NotNotifying 0) (λ _. absent) 0 _ (λ j. tt) tt) tt)
            tt)
          tt)
        tt)
      tt

only_h : (k : String) → race_state.clients k ≡ some 0 → k ≡ "h"
only_h k m = ground (arith, eq_iff "h" k)

abbrev deaf_state : HostServer
deaf_state = record race_state {
  clients = erase race_state.clients "h";
  heap = update race_state.heap 0 (record new_client { status = active });
  gc_host_ch = record { capacity = 1024; queue = [] };
  threads = update race_state.threads 1 (listening "h" 0);
}

deaf_runs : run (gc_arrives ∷ goes_on 1 ∷ []) race_state ≡ some deaf_state
unfolding run step alive_step proceed chk_host_idle receive
deaf_runs = refl

late_listener_is_deaf_example :
    ((key : String) → deaf_state.clients key ≢ some 0) × (step (goes_on 1) deaf_state ≡ none)
late_listener_is_deaf_example =
    late_listener_is_deaf "h" 0 1 [] [] race_state refl refl refl refl only_h (omega arith) refl
      refl nobody_notifies deaf_runs 1 "h" refl
