-- ===== src/Client/Listener/Sessions/Cleanup.antt =====
-- Every proxy that was started is closed once, whatever ends it.
use yamrp.Prelude.{
  Bool-cases, Map, Option, Option-cases, String, arith, eq_iff, erase, erase_all, inl, inr, none,
  refl, some, subst, suc, sym, update, ℕ, ◌==◌, ◌∙◌, ◌≡◌, ◌≢◌, ◌≤◌, ◌⊎◌,
}
use yamrp.Errors.{Error}
use yamrp.Client.Listener.Sessions.{
  Listener, Place, Session, absent, cleanup_proxy, close_proxy, conclude, finished, signal, storing,
  waiting, with_session,
}

-- What the map holds for a session, and how often its proxy was closed.
abbrev pub Fits : Option ℕ → ℕ → Place → Type 0
Fits entry closes absent = (entry ≡ none) × (closes ≡ 0)
Fits entry closes storing = (entry ≡ none) × (closes ≡ 0)
Fits entry closes waiting = ((entry ≢ none) × (closes ≡ 0)) ⊎ ((entry ≡ none) × (closes ≡ 1))
Fits entry closes finished = (entry ≡ none) × (closes ≡ 1)

module _ (uuid : ℕ → String) where
  abbrev pub FitsIn : Listener → ℕ → Type 0
  FitsIn s n = Fits (s.proxies (uuid n)) (s.sessions n).closes (s.sessions n).place

  pub record Inv (s : Listener) : Type 0 where
    pub owned : (k : String) (m : ℕ) → s.proxies k ≡ some m → uuid m ≡ k
    pub each : (n : ℕ) → FitsIn s n
    pub fresh : (n : ℕ) → s.started ≤ n → (s.sessions n).place ≡ absent

  module _ (distinct : (m n : ℕ) → uuid m ≡ uuid n → m ≡ n) where
    -- A write to one session and to the entry of its identifier.
    pub write-Inv :
        (n : ℕ) (x : Session) (m : Map ℕ) (s : Listener)
        → ((k : String) (j : ℕ) → m k ≡ some j → uuid j ≡ k)
        → ((j : ℕ) → n ≢ j → m (uuid j) ≡ s.proxies (uuid j))
        → Fits (m (uuid n)) x.closes x.place
        → (s.started ≤ n → x.place ≡ absent)
        → Inv s
        → Inv (with_session n x (record s { proxies = m }))
    write-Inv n x m s owned same fits new v = record { owned = owned; each = each; fresh = fresh }
      where
        each : (j : ℕ) → FitsIn (with_session n x (record s { proxies = m })) j
        each j = elim (Bool-cases (n == j)) [
          | inl e ↦
              let here : n ≡ j = ground (arith, e) in
              rw e (subst (λ i. Fits (m (uuid i)) x.closes x.place) here fits)
          | inr e ↦ let other : n ≢ j = ground (arith, e) in rw (e, same j other) (v.each j)
        ]

        fresh : (j : ℕ) → s.started ≤ j → (update s.sessions n x j).place ≡ absent
        fresh j le = elim (Bool-cases (n == j)) [
          | inl e ↦ let here : n ≡ j = ground (arith, e) in rw e (new (omega (arith, here, le)))
          | inr e ↦ rw e (v.fresh j le)
        ]

    -- A write to one session that leaves the map alone.
    pub touch-Inv :
        (n : ℕ) (x : Session) (s : Listener)
        → Fits (s.proxies (uuid n)) x.closes x.place
        → (s.started ≤ n → x.place ≡ absent)
        → Inv s
        → Inv (with_session n x s)
    touch-Inv n x s fits new v = write-Inv n x s.proxies s v.owned (λ j other. refl) fits new v

    -- What cleanupProxy leaves behind for a session.
    pub record Cleaned (n : ℕ) (s t : Listener) : Type 0 where
      pub inv : Inv t
      pub gone : t.proxies (uuid n) ≡ none
      pub place : (t.sessions n).place ≡ (s.sessions n).place
      pub started : t.started ≡ s.started

    entry-waiting :
        (n m : ℕ) (s : Listener)
        → FitsIn s n
        → s.proxies (uuid n) ≡ some m
        → ((s.sessions n).place ≡ waiting) × ((s.sessions n).closes ≡ 0)
    entry-waiting n m s fits e = go (s.sessions n).place refl fits
      where
        go :
            (p : Place)
            → (s.sessions n).place ≡ p
            → Fits (s.proxies (uuid n)) (s.sessions n).closes p
            → ((s.sessions n).place ≡ waiting) × ((s.sessions n).closes ≡ 0)
        go absent at f = cc
        go storing at f = cc
        go waiting at f = ground (arith, e)
        go finished at f = cc

    closed-Cleaned :
        (n m : ℕ) (s : Listener)
        → s.proxies (uuid n) ≡ some m
        → Inv s
        → Cleaned n s (
            with_session n
              (close_proxy (s.sessions n))
              (record s { proxies = erase s.proxies (uuid n) }))
    closed-Cleaned n m s e v = record {
      inv =
          write-Inv n (close_proxy (s.sessions n)) (erase s.proxies (uuid n)) s
            (erase_all (λ k j. uuid j ≡ k) s.proxies (uuid n) v.owned)
            (λ j other_session. ground (arith, eq_iff (uuid n) (uuid j), distinct n j)) fits
            (v.fresh n) v;
      gone = none_left;
      place = ground arith;
      started = refl;
    }
      where
        none_left : erase s.proxies (uuid n) (uuid n) ≡ none
        none_left = ground (arith, eq_iff (uuid n) (uuid n))

        fits :
            Fits
              (erase s.proxies (uuid n) (uuid n))
              (suc (s.sessions n).closes)
              (s.sessions n).place
        fits =
            let at = entry-waiting n m s (v.each n) e in
            subst (Fits (erase s.proxies (uuid n) (uuid n)) (suc (s.sessions n).closes)) (sym at.0)
              (inr (none_left, ground (arith, at.1)))

    pub cleanup_proxy-Cleaned :
        (n : ℕ) (s : Listener) → Inv s → Cleaned n s (cleanup_proxy (uuid n) s)
    unfolding cleanup_proxy
    cleanup_proxy-Cleaned n s v = elim (Option-cases (s.proxies (uuid n))) [
      | inl e ↦ rw (e, cleanup_proxy) (record { inv = v; gone = e; place = refl; started = refl })
      | inr (m, e) ↦
          let same : m ≡ n = distinct m n (v.owned (uuid n) m e) in
          rw (e, cleanup_proxy)
            (subst
              (λ i. Cleaned n s (
                with_session i (close_proxy (s.sessions i))
                  (record s { proxies = erase s.proxies (uuid n) })))
              (sym same) (closed-Cleaned n m s e v))
    ]

    pub closed_once :
        {entry : Option ℕ} {closes : ℕ} → Fits entry closes waiting → entry ≡ none → closes ≡ 1
    closed_once (inl (held, c)) gone = absurd (held gone)
    closed_once (inr (gone', c)) gone = c

    pub signal-Inv : (n : ℕ) (err : Option Error) (s : Listener) → Inv s → Inv (signal n err s)
    unfolding signal
    signal-Inv n err s v = touch-Inv n _ s (v.each n) (v.fresh n) v

    pub conclude-Inv :
        (n : ℕ) (err : Option Error) (s : Listener)
        → (s.sessions n).place ≡ waiting
        → Inv s
        → Inv (conclude (uuid n) n err s)
    unfolding conclude
    conclude-Inv n err s waits v =
        concluded (cleanup_proxy (uuid n) s) (cleanup_proxy-Cleaned n s v)
      where
        concluded :
            (t : Listener)
            → Cleaned n s t
            → Inv (
                with_session n
                  (record (t.sessions n) {
                    place = finished;
                    channel_closes = suc (t.sessions n).channel_closes;
                    closed = some err;
                  })
                  t)
        concluded t c =
            let fits =
              subst (Fits (t.proxies (uuid n)) (t.sessions n).closes) (c.place ∙ waits)
                (c.inv.each n) in
            touch-Inv n _ t (c.gone, closed_once fits c.gone)
              (λ le. cc (c.inv.fresh n le, c.place, waits)) c.inv
