-- ===== src/Server/Host/Orphans/Steps.antt =====
-- An orphan stays one, whatever the service does.
use yamrp.Prelude.{List, Option, String, [], ap, none, refl, some, ℕ, ◌∷◌, ◌≡◌}
use yamrp.Errors.{Error}
use yamrp.Chan.{Chan, receive, send, take_first}
use yamrp.Server.Host.{
  Event, HostClientRequest, HostServer, Thread, absent, alive_step, asked, awaiting, close_arrives,
  close_pushed, close_pushing, closed_stream, delete_host, fire, fires, gc_arrives, gc_pushed,
  gc_pushing, gc_timer, goes_on, host_arrives, listening, listens, notified, notifying,
  offer_arrives, offer_sent, proceed, replied, request_arrives, requesting, returned, send_returns,
  signalled, stop, stopped, stops, streaming, take_close, take_gc, take_request,
}
use yamrp.Server.Host.Runs.{Ensures}
use yamrp.Server.Host.Orphans.{
  IsOrphan, NotNotifying, chk_host_idle-IsOrphan, erase-IsOrphan, goes-IsOrphan, heap-IsOrphan,
  new_offer-IsOrphan, register-IsOrphan, request-IsOrphan, spawn-IsOrphan,
}

module _ (r : ℕ) where
  -- The manager's channels do not matter.
  queues-IsOrphan :
      (gc close : Chan String) (requests : Chan HostClientRequest) (s : HostServer)
      → IsOrphan r s
      → IsOrphan r (record s { gc_host_ch = gc; close_host_ch = close; request_ch = requests })
  queues-IsOrphan gc close requests s v = record {
    old = v.old;
    unmapped = v.unmapped;
    unnoticed = v.unnoticed;
    no_signal = v.no_signal;
  }

  -- The channel of the orphan has nothing to receive.
  signalled-IsOrphan :
      (i : ℕ) (id : String) (c : ℕ) (s : HostServer)
      → IsOrphan r s
      → Ensures (IsOrphan r) (signalled i id c s (receive (s.heap c).offer_sig))
  unfolding receive
  signalled-IsOrphan i id c s v = taken (s.heap c).offer_sig.queue refl
    where
      taken :
          (l : List (Unit {0}))
          → (s.heap c).offer_sig.queue ≡ l
          → Ensures (IsOrphan r) (signalled i id c s (take_first (s.heap c).offer_sig.capacity l))
      taken [] e = tt
      taken (u ∷ l) e = goes-IsOrphan r i (streaming id c) _ tt (
          heap-IsOrphan r c _ s
            (λ same. cc (e, v.no_signal, ap (λ (x : ℕ). (s.heap x).offer_sig.queue) same)) v)

  proceed-IsOrphan :
      (i : ℕ) (t : Thread) (s : HostServer)
      → NotNotifying r t
      → IsOrphan r s
      → Ensures (IsOrphan r) (proceed i t s)
  unfolding proceed
  proceed-IsOrphan i (gc_pushing id) s n v = pushed (send s.gc_host_ch id)
    where
      pushed : (o : Option (Chan String)) → Ensures (IsOrphan r) (gc_pushed i s o)
      pushed none = tt
      pushed (some c) =
          goes-IsOrphan r i absent (record s { gc_host_ch = c }) tt (queues-IsOrphan _ _ _ s v)
  proceed-IsOrphan i (notifying c id) s n v = sent (send (s.heap c).offer_sig tt)
    where
      sent : (o : Option (Chan (Unit {0}))) → Ensures (IsOrphan r) (notified i c s o)
      sent none = tt
      sent (some d) =
          goes-IsOrphan r i absent _ tt (heap-IsOrphan r c _ s (λ same. absurd (n same)) v)
  proceed-IsOrphan i (close_pushing id) s n v = pushed (send s.close_host_ch id)
    where
      pushed : (o : Option (Chan String)) → Ensures (IsOrphan r) (close_pushed i s o)
      pushed none = tt
      pushed (some c) =
          goes-IsOrphan r i absent (record s { close_host_ch = c }) tt (queues-IsOrphan _ _ _ s v)
  proceed-IsOrphan i (requesting id) s n v =
      sent (send s.request_ch (record { id = id; return_to = i }))
    where
      sent : (o : Option (Chan HostClientRequest)) → Ensures (IsOrphan r) (asked i id s o)
      sent none = tt
      sent (some c) =
          goes-IsOrphan r i (awaiting id) (record s { request_ch = c }) tt
            (queues-IsOrphan _ _ _ s v)
  proceed-IsOrphan i (replied id none) s n v = goes-IsOrphan r i _ s tt v
  proceed-IsOrphan i (replied id (some c)) s n v =
      goes-IsOrphan r i (listening id c) _ tt (heap-IsOrphan r c _ s (λ _. refl) v)
  proceed-IsOrphan i (listening id c) s n v = signalled-IsOrphan i id c s v
  proceed-IsOrphan i _ s n v = tt

  fire-IsOrphan :
      (i : ℕ) (t : Thread) (s : HostServer) → IsOrphan r s → Ensures (IsOrphan r) (fire i t s)
  unfolding fire
  fire-IsOrphan i (gc_timer id) s v = goes-IsOrphan r i _ s tt v
  fire-IsOrphan i (notifying c id) s v = goes-IsOrphan r i _ s tt v
  fire-IsOrphan i _ s v = tt

  stop-IsOrphan :
      (i : ℕ) (t : Thread) (s : HostServer) → IsOrphan r s → Ensures (IsOrphan r) (stop i t s)
  unfolding stop
  stop-IsOrphan i (listening id c) s v = taken (receive (s.heap c).stop_listening_new_offer)
    where
      taken : (o : Option (Unit {0} × Chan (Unit {0}))) → Ensures (IsOrphan r) (stopped i c s o)
      taken none = tt
      taken (some (u, d)) =
          goes-IsOrphan r i (returned closed_stream) _ tt (heap-IsOrphan r c _ s (λ _. refl) v)
  stop-IsOrphan i _ s v = tt

  offer_sent-IsOrphan :
      (i : ℕ) (t : Thread) (e : Option Error) (s : HostServer)
      → IsOrphan r s
      → Ensures (IsOrphan r) (offer_sent i t e s)
  unfolding offer_sent
  offer_sent-IsOrphan i (streaming id c) none s v = goes-IsOrphan r i _ s tt v
  offer_sent-IsOrphan i (streaming id c) (some e) s v = goes-IsOrphan r i _ s tt v
  offer_sent-IsOrphan i _ e s v = tt

  pub alive_step-IsOrphan :
      (e : Event) (s : HostServer) → IsOrphan r s → Ensures (IsOrphan r) (alive_step e s)
  unfolding alive_step delete_host
  alive_step-IsOrphan (host_arrives id) s v = register-IsOrphan r id s v
  alive_step-IsOrphan (offer_arrives id) s v = new_offer-IsOrphan r id s v
  alive_step-IsOrphan gc_arrives s v = taken (receive s.gc_host_ch)
    where
      taken : (o : Option (String × Chan String)) → Ensures (IsOrphan r) (take_gc s o)
      taken none = tt
      taken (some (id, c)) =
          chk_host_idle-IsOrphan r id (record s { gc_host_ch = c }) (queues-IsOrphan _ _ _ s v)
  alive_step-IsOrphan close_arrives s v = taken (receive s.close_host_ch)
    where
      taken : (o : Option (String × Chan String)) → Ensures (IsOrphan r) (take_close s o)
      taken none = tt
      taken (some (id, c)) =
          erase-IsOrphan r id (record s { close_host_ch = c }) (queues-IsOrphan _ _ _ s v)
  alive_step-IsOrphan request_arrives s v = taken (receive s.request_ch)
    where
      taken :
          (o : Option (HostClientRequest × Chan HostClientRequest))
          → Ensures (IsOrphan r) (take_request s o)
      taken none = tt
      taken (some (q, c)) =
          request-IsOrphan r q (record s { request_ch = c }) (queues-IsOrphan _ _ _ s v)
  alive_step-IsOrphan (listens id) s v = spawn-IsOrphan r (requesting id) s tt v
  alive_step-IsOrphan (goes_on i) s v = proceed-IsOrphan i (s.threads i) s (v.unnoticed i) v
  alive_step-IsOrphan (fires i) s v = fire-IsOrphan i (s.threads i) s v
  alive_step-IsOrphan (stops i) s v = stop-IsOrphan i (s.threads i) s v
  alive_step-IsOrphan (send_returns i e) s v = offer_sent-IsOrphan i (s.threads i) e s v
