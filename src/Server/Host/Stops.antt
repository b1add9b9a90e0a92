-- ===== src/Server/Host/Stops.antt =====
-- Nothing stops a call of ListenNewOffer but an error: nobody sends a stop signal.
use yamrp.Prelude.{
  All, Bool-cases, List, Option, Option-cases, String, [], arith, inl, inr, none, refl, some, subst,
  sym, update, update_all, ℕ, ◌==◌, ◌∷◌, ◌≡◌, ◌⊎◌,
}
use yamrp.Errors.{Error, not_found}
use yamrp.Chan.{Chan, receive, send}
use yamrp.Server.Host.{
  Event, HostClient, HostClientRequest, HostClientStatus, HostServer, Reply, Thread, absent, active,
  alive_step, asked, awaiting, chk_host_idle, close_arrives, close_pushed, close_pushing, collect,
  failed, fire, fires, gc_arrives, gc_pushed, gc_pushing, gc_timer, goes, goes_on,
  handle_host_client_request, handle_new_offer, host_arrives, idle, listening, listens, new_client,
  new_host_server, notified, notifying, offer_arrives, offer_sent, proceed, replied, reply_to,
  request_arrives, requesting, returned, run, send_returns, signalled, spawn, step, stop, stops,
  streaming, take_close, take_gc, take_request,
}
use yamrp.Server.Host.Runs.{Ensures, run_keeps_if, step_refused}

-- How a call of ListenNewOffer may end: not found, or by an error that a Send of its stream gave,
-- where `F i e` says that this happened to the call `i`.
abbrev pub EndsWith : (ℕ → Error → Type 0) → ℕ → Reply → Type 0
EndsWith F i r = (r ≡ failed (Error.status not_found)) ⊎ ((e : Error) × (r ≡ failed e) × F i e)

update_each :
    (P : ℕ → Thread → Type 0) (f : ℕ → Thread) (i : ℕ) (t : Thread)
    → ((j : ℕ) → P j (f j))
    → P i t
    → (j : ℕ) → P j (update f i t j)
update_each P f i t old new j = elim (Bool-cases (i == j)) [
  | inl e ↦ let same : i ≡ j = ground (arith, e) in rw e (subst (λ x. P x t) same new)
  | inr e ↦ rw e (old j)
]

module _ (F : ℕ → Error → Type 0) where
  abbrev pub Ends : ℕ → Thread → Type 0
  Ends i (returned r) = EndsWith F i r
  Ends i _ = Unit

  abbrev SendSays : ℕ → Option Error → Type 0
  SendSays i none = Unit
  SendSays i (some e) = F i e

  abbrev Says : Event → Type 0
  Says (send_returns i e) = SendSays i e
  Says _ = Unit

  record Inv (s : HostServer) : Type 0 where
    quiet : (r : ℕ) → (s.heap r).stop_listening_new_offer.queue ≡ []
    open_ : (j : ℕ) → Ends j (s.threads j)

  abbrev Quiet : HostClient → Type 0
  Quiet c = c.stop_listening_new_offer.queue ≡ []

  goes-Inv : (i : ℕ) (t : Thread) (s : HostServer) → Ends i t → Inv s → Inv (goes i t s)
  goes-Inv i t s n v = record { quiet = v.quiet; open_ = update_each Ends s.threads i t v.open_ n }

  spawn-Inv : (t : Thread) (s : HostServer) → Ends s.spawned t → Inv s → Inv (spawn t s)
  spawn-Inv t s n v = record {
    quiet = v.quiet;
    open_ = update_each Ends s.threads s.spawned t v.open_ n;
  }

  heap-Inv :
      (r : ℕ) (c : HostClient) (s : HostServer)
      → Quiet c
      → Inv s
      → Inv (record s { heap = update s.heap r c })
  heap-Inv r c s q v = record { quiet = update_all Quiet s.heap r c v.quiet q; open_ = v.open_ }

  chk_host_idle-Inv : (id : String) (s : HostServer) → Inv s → Inv (chk_host_idle id s)
  unfolding chk_host_idle
  chk_host_idle-Inv id s v = elim (Option-cases (s.clients id)) [
    | inl e ↦ rw (e, chk_host_idle) (record { quiet = v.quiet; open_ = v.open_ })
    | inr (r, e) ↦ rw (e, chk_host_idle) (kept (s.heap r).status)
  ]
    where
      kept : (x : HostClientStatus) → Inv (collect id x s)
      kept idle = record { quiet = v.quiet; open_ = v.open_ }
      kept active = v

  request-Inv :
      (q : HostClientRequest) (s : HostServer) → Inv s → Inv (handle_host_client_request q s)
  unfolding handle_host_client_request
  request-Inv q s v = answered (s.threads q.return_to)
    where
      answered : (t : Thread) → Inv (reply_to q.return_to t (s.clients q.id) s)
      answered (awaiting id) = goes-Inv q.return_to (replied id (s.clients q.id)) s tt v
      answered _ = v

  new_offer-Inv : (id : String) (s : HostServer) → Inv s → Inv (handle_new_offer id s)
  unfolding handle_new_offer
  new_offer-Inv id s v = elim (Option-cases (s.clients id)) [
    | inl e ↦ rw (e, handle_new_offer) v
    | inr (r, e) ↦ rw (e, handle_new_offer) (spawn-Inv (notifying r id) s tt v)
  ]

  proceed-Inv : (i : ℕ) (t : Thread) (s : HostServer) → Inv s → Ensures Inv (proceed i t s)
  unfolding proceed
  proceed-Inv i (gc_pushing id) s v = pushed (send s.gc_host_ch id)
    where
      pushed : (o : Option (Chan String)) → Ensures Inv (gc_pushed i s o)
      pushed none = tt
      pushed (some c) =
          goes-Inv i absent (record s { gc_host_ch = c }) tt
            (record { quiet = v.quiet; open_ = v.open_ })
  proceed-Inv i (notifying r id) s v = sent (send (s.heap r).offer_sig tt)
    where
      sent : (o : Option (Chan (Unit {0}))) → Ensures Inv (notified i r s o)
      sent none = tt
      sent (some c) = goes-Inv i absent _ tt (heap-Inv r _ s (v.quiet r) v)
  proceed-Inv i (close_pushing id) s v = pushed (send s.close_host_ch id)
    where
      pushed : (o : Option (Chan String)) → Ensures Inv (close_pushed i s o)
      pushed none = tt
      pushed (some c) =
          goes-Inv i absent (record s { close_host_ch = c }) tt
            (record { quiet = v.quiet; open_ = v.open_ })
  proceed-Inv i (requesting id) s v = sent (send s.request_ch (record { id = id; return_to = i }))
    where
      sent : (o : Option (Chan HostClientRequest)) → Ensures Inv (asked i id s o)
      sent none = tt
      sent (some c) =
          goes-Inv i (awaiting id) (record s { request_ch = c }) tt
            (record { quiet = v.quiet; open_ = v.open_ })
  proceed-Inv i (replied id none) s v = goes-Inv i _ s (inl refl) v
  proceed-Inv i (replied id (some r)) s v =
      goes-Inv i (listening id r) _ tt (heap-Inv r _ s (v.quiet r) v)
  proceed-Inv i (listening id r) s v = taken (receive (s.heap r).offer_sig)
    where
      taken : (o : Option (Unit {0} × Chan (Unit {0}))) → Ensures Inv (signalled i id r s o)
      taken none = tt
      taken (some (u, c)) = goes-Inv i (streaming id r) _ tt (heap-Inv r _ s (v.quiet r) v)
  proceed-Inv i _ s v = tt

  fire-Inv : (i : ℕ) (t : Thread) (s : HostServer) → Inv s → Ensures Inv (fire i t s)
  unfolding fire
  fire-Inv i (gc_timer id) s v = goes-Inv i _ s tt v
  fire-Inv i (notifying r id) s v = goes-Inv i _ s tt v
  fire-Inv i _ s v = tt

  -- A stop signal never comes.
  stop-none : (i : ℕ) (t : Thread) (s : HostServer) → Inv s → stop i t s ≡ none
  unfolding stop receive
  stop-none i (listening id r) s v = ground (arith, v.quiet r)
  stop-none i _ s v = refl

  offer_sent-Inv :
      (i : ℕ) (t : Thread) (e : Option Error) (s : HostServer)
      → SendSays i e
      → Inv s
      → Ensures Inv (offer_sent i t e s)
  unfolding offer_sent
  offer_sent-Inv i (streaming id r) none s q v = goes-Inv i _ s tt v
  offer_sent-Inv i (streaming id r) (some e) s q v = goes-Inv i _ s (inr (e, refl, q)) v
  offer_sent-Inv i _ e s q v = tt

  alive_step-Inv : (e : Event) (s : HostServer) → Says e → Inv s → Ensures Inv (alive_step e s)
  unfolding alive_step
  alive_step-Inv (host_arrives id) s q v =
      spawn-Inv (gc_timer id) _ tt
        (record { quiet = update_all Quiet s.heap s.made new_client v.quiet refl; open_ = v.open_ })
  alive_step-Inv (offer_arrives id) s q v = new_offer-Inv id s v
  alive_step-Inv gc_arrives s q v = taken (receive s.gc_host_ch)
    where
      taken : (o : Option (String × Chan String)) → Ensures Inv (take_gc s o)
      taken none = tt
      taken (some (id, c)) =
          chk_host_idle-Inv id (record s { gc_host_ch = c })
            (record { quiet = v.quiet; open_ = v.open_ })
  alive_step-Inv close_arrives s q v = taken (receive s.close_host_ch)
    where
      taken : (o : Option (String × Chan String)) → Ensures Inv (take_close s o)
      taken none = tt
      taken (some (id, c)) = record { quiet = v.quiet; open_ = v.open_ }
  alive_step-Inv request_arrives s q v = taken (receive s.request_ch)
    where
      taken :
          (o : Option (HostClientRequest × Chan HostClientRequest)) → Ensures Inv (take_request s o)
      taken none = tt
      taken (some (x, c)) =
          request-Inv x (record s { request_ch = c }) (record { quiet = v.quiet; open_ = v.open_ })
  alive_step-Inv (listens id) s q v = spawn-Inv (requesting id) s tt v
  alive_step-Inv (goes_on i) s q v = proceed-Inv i (s.threads i) s v
  alive_step-Inv (fires i) s q v = fire-Inv i (s.threads i) s v
  alive_step-Inv (stops i) s q v = subst (Ensures Inv) (sym (stop-none i (s.threads i) s v)) tt
  alive_step-Inv (send_returns i e) s q v = offer_sent-Inv i (s.threads i) e s q v

  new_host_server-Inv : Inv new_host_server
  unfolding new_host_server
  new_host_server-Inv = record { quiet = λ r. refl; open_ = λ j. tt }

-- A Send in the call `i` returned that error.
abbrev pub SendFailed : List Event → ℕ → Error → Type 0
SendFailed [] i e = ⊥
SendFailed (send_returns j (some x) ∷ es) i e = ((j ≡ i) × (x ≡ e)) ⊎ SendFailed es i e
SendFailed (_ ∷ es) i e = SendFailed es i e

all-Says :
    (F : ℕ → Error → Type 0) (es : List Event)
    → ((i : ℕ) (e : Error) → SendFailed es i e → F i e)
    → All (Says F) es
all-Says F [] h = tt
all-Says F (send_returns j (some x) ∷ es) h =
    (h j x (inl (refl, refl)), all-Says F es (λ i e w. h i e (inr w)))
all-Says F (send_returns j none ∷ es) h = (tt, all-Says F es h)
all-Says F (e ∷ es) h = (tt, all-Says F es h)

-- Whatever happened since the server started, a call of ListenNewOffer that has returned did so with
-- `not found` or with an error that a Send of its own stream returned, and none can take a stop
-- signal, since nobody sends one.
pub listen_never_stops :
    (es : List Event) {s : HostServer}
    → run es new_host_server ≡ some s
    → (i : ℕ) → Ends (SendFailed es) i (s.threads i) × (step (stops i) s ≡ none)
unfolding alive_step
listen_never_stops es {s} ran i =
    let failed_so = SendFailed es in
    let v =
      run_keeps_if (Says failed_so) (Inv failed_so) (alive_step-Inv failed_so) es new_host_server
        (all-Says failed_so es (λ j e w. w)) (new_host_server-Inv failed_so) ran in
    (v.open_ i, step_refused (stops i) s (stop-none failed_so i (s.threads i) s v))
