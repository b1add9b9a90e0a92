-- ===== src/Server/Host/Deaf.antt =====
-- A call of ListenNewOffer that gets its client just before the manager drops it is deaf for good.
use yamrp.Prelude.{
  List, String, [], arith, eq_iff, erase, false, none, refl, some, subst, sym, ℕ, ◌<◌, ◌∷◌, ◌≡◌,
  ◌≢◌,
}
use yamrp.Chan.{receive}
use yamrp.Server.Host.{
  Event, HostServer, alive_step, chk_host_idle, gc_arrives, goes_on, idle, listening, proceed,
  replied, run, step,
}
use yamrp.Server.Host.Runs.{run_cons, run_keeps, step_refused}
use yamrp.Server.Host.Orphans.{IsOrphan, NotNotifying}
use yamrp.Server.Host.Orphans.Steps.{alive_step-IsOrphan}

-- The manager drops an idle client.
dropped :
    (id : String) (r : ℕ) (rest : List String) (s : HostServer)
    → s.panicked ≡ false
    → s.gc_host_ch.queue ≡ id ∷ rest
    → s.clients id ≡ some r
    → (s.heap r).status ≡ idle
    → step gc_arrives s
      ≡ some (record s {
        gc_host_ch = record { capacity = s.gc_host_ch.capacity; queue = rest };
        clients = erase s.clients id;
      })
unfolding step alive_step receive chk_host_idle
dropped id r rest s alive queued mapped unused = ground arith

nothing_to_take :
    (r j : ℕ) (k : String) (s : HostServer) → IsOrphan r s → proceed j (listening k r) s ≡ none
unfolding proceed receive
nothing_to_take r j k s v = ground (arith, v.no_signal)

-- Let a call of ListenNewOffer for `id` have got its client, number `r`, which is idle, has no
-- signal waiting or about to be sent, and is the client of no other key, and let the timer of its
-- registration have asked the manager to check `id`. If the manager checks before the call marks
-- the client as active, then after any further schedule a call that listens on the client can take
-- no signal of an offer, and no key leads to the client.
pub late_listener_is_deaf :
    (id : String) (r i : ℕ) (rest : List String) (after : List Event) (s : HostServer)
    {t : HostServer}
    → s.panicked ≡ false
    → s.gc_host_ch.queue ≡ id ∷ rest
    → s.threads i ≡ replied id (some r)
    → s.clients id ≡ some r
    → ((k : String) → s.clients k ≡ some r → k ≡ id)
    → r < s.made
    → (s.heap r).status ≡ idle
    → (s.heap r).offer_sig.queue ≡ []
    → ((j : ℕ) → NotNotifying r (s.threads j))
    → run (gc_arrives ∷ goes_on i ∷ after) s ≡ some t
    → (j : ℕ) (k : String) → t.threads j ≡ listening k r
    → ((key : String) → t.clients key ≢ some r) × (step (goes_on j) t ≡ none)
unfolding step alive_step
late_listener_is_deaf id r i rest after s {t} alive queued got mapped only old unused silent unseen
      ran j k on_client =
    (
      λ key m. v.unmapped key r m refl,
      step_refused (goes_on j) t (rw on_client (nothing_to_take r j k t v)),
    )
  where
    cleared : HostServer
    cleared = record s {
      gc_host_ch = record { capacity = s.gc_host_ch.capacity; queue = rest };
      clients = erase s.clients id;
    }

    first :
        (s' : HostServer) × (step gc_arrives s ≡ some s') × (run (goes_on i ∷ after) s' ≡ some t)
    first = run_cons gc_arrives (goes_on i ∷ after) s ran

    same : first.0 ≡ cleared
    same = cc (first.1, dropped id r rest s alive queued mapped unused)

    orphaned : IsOrphan r cleared
    orphaned = record {
      old = old;
      unmapped = λ k c m e. grind (arith, only k, eq_iff id k);
      unnoticed = unseen;
      no_signal = silent;
    }

    v : IsOrphan r t
    v =
        run_keeps (IsOrphan r) (alive_step-IsOrphan r) (goes_on i ∷ after) first.0
          (subst (IsOrphan r) (sym same) orphaned) first.2
