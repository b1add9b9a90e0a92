-- ===== src/Server/Host/Orphans.antt =====
-- A call of ListenNewOffer whose client the manager has dropped hears of no offer.
pub mod Steps
use yamrp.Prelude.{
  Option-cases, String, [], arith, erase, erase_all, inl, inr, insert_all, some, update, update_all,
  ℕ, ◌<◌, ◌≡◌, ◌≢◌,
}
use yamrp.Server.Host.{
  HostClient, HostClientRequest, HostClientStatus, HostServer, Thread, active, awaiting,
  chk_host_idle, collect, gc_timer, goes, handle_host_client_request, handle_new_offer, idle,
  notifying, register_host, replied, reply_to, spawn,
}

abbrev pub NotNotifying : ℕ → Thread → Type 0
NotNotifying r (notifying c id) = c ≢ r
NotNotifying r _ = Unit

-- No key leads to the client, nobody is about to signal it, and no signal waits in its channel.
pub record IsOrphan (r : ℕ) (s : HostServer) : Type 0 where
  pub old : r < s.made
  pub unmapped : (k : String) (c : ℕ) → s.clients k ≡ some c → c ≢ r
  pub unnoticed : (j : ℕ) → NotNotifying r (s.threads j)
  pub no_signal : (s.heap r).offer_sig.queue ≡ []

module _ (r : ℕ) where
  pub goes-IsOrphan :
      (i : ℕ) (t : Thread) (s : HostServer)
      → NotNotifying r t
      → IsOrphan r s
      → IsOrphan r (goes i t s)
  goes-IsOrphan i t s n v = record {
    old = v.old;
    unmapped = v.unmapped;
    unnoticed = update_all (NotNotifying r) s.threads i t v.unnoticed n;
    no_signal = v.no_signal;
  }

  pub spawn-IsOrphan :
      (t : Thread) (s : HostServer) → NotNotifying r t → IsOrphan r s → IsOrphan r (spawn t s)
  spawn-IsOrphan t s n v = record {
    old = v.old;
    unmapped = v.unmapped;
    unnoticed = update_all (NotNotifying r) s.threads s.spawned t v.unnoticed n;
    no_signal = v.no_signal;
  }

  -- A write to a client that leaves the orphan's signals alone.
  pub heap-IsOrphan :
      (c : ℕ) (new : HostClient) (s : HostServer)
      → (c ≡ r → new.offer_sig.queue ≡ (s.heap c).offer_sig.queue)
      → IsOrphan r s
      → IsOrphan r (record s { heap = update s.heap c new })
  heap-IsOrphan c new s same v = record {
    old = v.old;
    unmapped = v.unmapped;
    unnoticed = v.unnoticed;
    no_signal = ground (arith, v.no_signal, same);
  }

  pub erase-IsOrphan :
      (id : String) (s : HostServer)
      → IsOrphan r s
      → IsOrphan r (record s { clients = erase s.clients id })
  erase-IsOrphan id s v = record {
    old = v.old;
    unmapped = erase_all (λ k c. c ≢ r) s.clients id v.unmapped;
    unnoticed = v.unnoticed;
    no_signal = v.no_signal;
  }

  pub register-IsOrphan :
      (id : String) (s : HostServer) → IsOrphan r s → IsOrphan r (register_host id s)
  unfolding register_host
  register-IsOrphan id s v = spawn-IsOrphan (gc_timer id) _ tt (record {
    old = omega (arith, v.old);
    unmapped = insert_all (λ k c. c ≢ r) s.clients id s.made v.unmapped (omega (arith, v.old));
    unnoticed = v.unnoticed;
    no_signal = ground (arith, v.no_signal, v.old);
  })

  pub chk_host_idle-IsOrphan :
      (id : String) (s : HostServer) → IsOrphan r s → IsOrphan r (chk_host_idle id s)
  unfolding chk_host_idle
  chk_host_idle-IsOrphan id s v = elim (Option-cases (s.clients id)) [
    | inl e ↦
        rw (e, chk_host_idle)
          (record {
            old = v.old;
            unmapped = v.unmapped;
            unnoticed = v.unnoticed;
            no_signal = v.no_signal;
          })
    | inr (c, e) ↦ rw (e, chk_host_idle) (kept (s.heap c).status)
  ]
    where
      kept : (x : HostClientStatus) → IsOrphan r (collect id x s)
      kept idle = erase-IsOrphan id s v
      kept active = v

  pub request-IsOrphan :
      (q : HostClientRequest) (s : HostServer)
      → IsOrphan r s
      → IsOrphan r (handle_host_client_request q s)
  unfolding handle_host_client_request
  request-IsOrphan q s v = answered (s.threads q.return_to)
    where
      answered : (t : Thread) → IsOrphan r (reply_to q.return_to t (s.clients q.id) s)
      answered (awaiting id) = goes-IsOrphan q.return_to (replied id (s.clients q.id)) s tt v
      answered _ = v

  pub new_offer-IsOrphan :
      (id : String) (s : HostServer) → IsOrphan r s → IsOrphan r (handle_new_offer id s)
  unfolding handle_new_offer
  new_offer-IsOrphan id s v = elim (Option-cases (s.clients id)) [
    | inl e ↦ rw (e, handle_new_offer) v
    | inr (c, e) ↦
        rw (e, handle_new_offer) (spawn-IsOrphan (notifying c id) s (v.unmapped id c e) v)
  ]
