-- ===== src/Cmd/Old/Client/Lost.antt =====
-- The candidates that are found while the program waits for the other description.
use mathlib.Core.Option.{map as option_map}
use yamrp.Prelude.{
  List, Option, Option-cases, [], ap, arith, false, if◌then◌else◌, inl, inr, none, refl, some,
  subst, sym, true, ◌++◌, ◌∙◌, ◌∷◌, ◌≡◌,
}
use yamrp.Errors.{Error}
use yamrp.Schedules.{Ensures, Holds, run, run_cons, run_next}
use yamrp.Cmd.Old.{
  Bytes, Exit, Peer, closed, failed, on_connection_state_change, on_ice_candidate, other_state,
  send_text, signal_all, signal_candidate, stop,
}
use yamrp.Cmd.Old.Client.{
  Asked, Event, Externals, Place, Program, adds, adds_one, alive, asked, asking, asks, changes,
  described, ends, fails, gathers, go, offered, or_panic, pick, scanning, scans,
  set_remote_description, signals, slice_panics, starting, step, ticks, with_peer,
}

abbrev pub with_pending : List Bytes → Program → Program
with_pending x s = record s { peer = record s.peer { pending = x } }

-- setRemoteDescription was called.
abbrev pub IsCalled : Place → Type 0
IsCalled starting = ⊥
IsCalled offered = ⊥
IsCalled _ = Unit

next_pending : List Bytes → Event → Program → List Bytes
next_pending x (gathers (some c)) s = if s.peer.remote then x else x ++ c ∷ []
next_pending x _ s = x

abbrev pending_peer : List Bytes → Peer → Peer
pending_peer x p = record p { pending = x }

signal_all-pending :
    (encode : Bytes → Bytes) (x cs : List Bytes) (p : Peer)
    → signal_all encode cs (pending_peer x p) ≡ pending_peer x (signal_all encode cs p)
unfolding signal_all signal_candidate
signal_all-pending encode x [] p = refl
signal_all-pending encode x (c ∷ cs) p =
    signal_all-pending encode x cs (signal_candidate encode c p)

asked-with_pending :
    (x : List Bytes) (a : Asked) (s : Program)
    → asked a (with_pending x s) ≡ with_pending x (asked a s)
unfolding asked stop
asked-with_pending x ends s = refl
asked-with_pending x slice_panics s = refl
asked-with_pending x (fails e) s = refl
asked-with_pending x (adds c) s = refl

or_panic-IsCalled :
    (o : Option Error) (s next : Program)
    → IsCalled s.place
    → IsCalled next.place
    → IsCalled (or_panic o s next).place
unfolding or_panic
or_panic-IsCalled none s next a b = b
or_panic-IsCalled (some e) s next a b = a

module _ {D : Type 0} (ext : Externals D) where
  set_remote-with_pending :
      (x passed : List Bytes) (line : Bytes) (err : Option Error) (s : Program)
      → set_remote_description ext passed line err (with_pending x s)
        ≡ with_pending x (set_remote_description ext passed line err s)
  unfolding set_remote_description or_panic stop
  set_remote-with_pending x passed line err s = ground arith

  -- What the callbacks do, at any place.
  gathers-with_pending :
      (x : List Bytes) (c : Option Bytes) (s : Program)
      → with_peer (with_pending x s) (on_ice_candidate ext.encode c (pending_peer x s.peer))
        ≡ with_pending
            (next_pending x (gathers c) s)
            (with_peer s (on_ice_candidate ext.encode c s.peer))
  unfolding on_ice_candidate signal_candidate next_pending
  gathers-with_pending x none s = refl
  gathers-with_pending x (some c) s = ground arith

  -- A turn makes the same of a program whose pending candidates are others.
  go-with_pending :
      (x : List Bytes) (l : Place) (e : Event) (s : Program)
      → IsCalled l
      → go ext l e (with_pending x s)
        ≡ option_map (with_pending (next_pending x e s)) (go ext l e s)
  unfolding go next_pending on_connection_state_change send_text stop
  go-with_pending x l (adds_one i) s q = elim (Option-cases (pick i s.adding)) [
    | inl none_there ↦ rw none_there refl
    | inr ((c, rest), picked) ↦ rw picked refl
  ]
  go-with_pending x starting e s q = absurd q
  go-with_pending x offered e s q = absurd q
  go-with_pending x (scanning passed) (scans line err) s q =
      ap some (set_remote-with_pending x passed line err s)
  go-with_pending x (described passed) signals s q =
      ap (λ p. some (record s { place = asking; peer = p }))
        (signal_all-pending ext.encode x passed s.peer)
  go-with_pending x asking (asks line err) s q = ap some (asked-with_pending x _ s)
  go-with_pending x l (gathers c) s q = ap some (gathers-with_pending x c s)
  go-with_pending x l (changes failed) s q = refl
  go-with_pending x l (changes closed) s q = refl
  go-with_pending x l (changes other_state) s q = refl
  go-with_pending x l (ticks none) s q = refl
  go-with_pending x l (ticks (some e)) s q = refl
  go-with_pending x l e s q = refl

  asked-IsCalled : (a : Asked) (s : Program) → IsCalled s.place → IsCalled (asked a s).place
  unfolding asked
  asked-IsCalled ends s q = tt
  asked-IsCalled slice_panics s q = q
  asked-IsCalled (fails e) s q = tt
  asked-IsCalled (adds c) s q = q

  go-IsCalled :
      (l : Place) (e : Event) (s : Program)
      → s.place ≡ l
      → IsCalled l
      → Holds (λ t. IsCalled t.place) (go ext l e s)
  unfolding go set_remote_description
  go-IsCalled l (adds_one i) s at q = elim (Option-cases (pick i s.adding)) [
    | inl none_there ↦ rw none_there tt
    | inr ((c, rest), picked) ↦ rw picked (subst IsCalled (sym at) q)
  ]
  go-IsCalled starting e s at q = absurd q
  go-IsCalled offered e s at q = absurd q
  go-IsCalled (scanning passed) (scans line err) s at q =
      let here : IsCalled s.place = subst IsCalled (sym at) q in
      let (sdp, sdp_err) = ext.unmarshal (ext.decode line).0 in
      let done : Program = record s {
        place = described passed;
        peer = record s.peer { remote = true };
      } in
      let set = or_panic (ext.set_remote_description sdp) s done in
      or_panic-IsCalled err s (or_panic sdp_err s set) here (
        or_panic-IsCalled sdp_err s set here
          (or_panic-IsCalled (ext.set_remote_description sdp) s done here tt))
  go-IsCalled (described passed) signals s at q = tt
  go-IsCalled asking (asks line err) s at q = asked-IsCalled _ s (subst IsCalled (sym at) q)
  go-IsCalled l (gathers c) s at q = subst IsCalled (sym at) q
  go-IsCalled l (changes state) s at q = subst IsCalled (sym at) q
  go-IsCalled l (ticks err) s at q = subst IsCalled (sym at) q
  go-IsCalled l e s at q = tt

  alive-Ensures :
      (P : Program → Type 0) (o : Option Exit) (n : Option Program)
      → Holds P n
      → Ensures P (alive ext o n)
  alive-Ensures P (some e) n h = tt
  alive-Ensures P none none h = tt
  alive-Ensures P none (some t) h = h

  step-IsCalled :
      (e : Event) (s : Program) → IsCalled s.place → Ensures (λ t. IsCalled t.place) (step ext e s)
  unfolding step
  step-IsCalled e s q =
      alive-Ensures (λ t. IsCalled t.place) s.peer.over _ (go-IsCalled s.place e s refl q)

  -- If a turn can be taken, it can be with other pending candidates.
  alive-with_pending :
      (x : List Bytes) (o : Option Exit) (n : Option Program) {t : Program} {u : Unit {0}}
      → alive ext o n ≡ some (t, u)
      → alive ext o (option_map (with_pending x) n) ≡ some (with_pending x t, tt)
  alive-with_pending x (some e) n h = cc
  alive-with_pending x none none h = cc
  alive-with_pending x none (some r) h =
      ap (option_map (λ (p : Program × Unit {0}). (with_pending x p.0, tt))) h

  step-with_pending :
      (x : List Bytes) (e : Event) (s : Program) {t : Program} {u : Unit {0}}
      → IsCalled s.place
      → step ext e s ≡ some (t, u)
      → step ext e (with_pending x s) ≡ some (with_pending (next_pending x e s) t, tt)
  unfolding step
  step-with_pending x e s {t} {u} q h =
      ap (alive ext s.peer.over) (go-with_pending x s.place e s q)
      ∙ alive-with_pending (next_pending x e s) s.peer.over (go ext s.place e s) h

  run-with_pending :
      (es : List Event) (x : List Bytes) (s : Program) {t : Program}
      → IsCalled s.place
      → run (step ext) es s ≡ some t
      → (y : List Bytes) × (run (step ext) es (with_pending x s) ≡ some (with_pending y t))
  unfolding run
  run-with_pending [] x s q h = (x, ap (option_map (with_pending x)) h)
  run-with_pending (e ∷ es) x s q h =
      let (s', out, taken, rest) = run_cons (step ext) e es s h in
      let called : IsCalled s'.place =
        subst (Ensures (λ t. IsCalled t.place)) taken (step-IsCalled e s q) in
      let (y, more) = run-with_pending es (next_pending x e s) s' called rest in
      (y, run_next (step ext) e es (with_pending x s) (step-with_pending x e s q taken) ∙ more)

  gathered :
      (passed : List Bytes) (c : Bytes) (s : Program)
      → s.place ≡ scanning passed
      → s.peer.remote ≡ false
      → s.peer.over ≡ none
      → step ext (gathers (some c)) s ≡ some (with_pending (s.peer.pending ++ c ∷ []) s, tt)
  unfolding step go on_ice_candidate
  gathered passed c s at unset alive_ = ground arith

  -- A candidate that is found after setRemoteDescription was called, and before the description was
  -- set, makes no difference: whatever can happen without it can happen with it, and the same is
  -- printed, the same is handed to the connection and still to be handed to it, and main is at the
  -- same place.
  pub late_candidate_is_lost :
      (passed : List Bytes) (c : Bytes) (es : List Event) (s : Program) {t : Program}
      → s.place ≡ scanning passed
      → s.peer.remote ≡ false
      → s.peer.over ≡ none
      → run (step ext) es s ≡ some t
      → (t' : Program) × (run (step ext) (gathers (some c) ∷ es) s ≡ some t')
        × (t'.peer.printed ≡ t.peer.printed)
        × (t'.added ≡ t.added)
        × (t'.adding ≡ t.adding)
        × (t'.place ≡ t.place)
  late_candidate_is_lost passed c es s {t} at unset alive_ h =
      let (y, more) =
        run-with_pending es (s.peer.pending ++ c ∷ []) s (subst IsCalled (sym at) tt) h in
      (
        with_pending y t,
        run_next (step ext) (gathers (some c)) es s (gathered passed c s at unset alive_) ∙ more,
        refl,
        refl,
        refl,
        refl,
      )
