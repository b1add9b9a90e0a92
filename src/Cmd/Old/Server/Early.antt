-- ===== src/Cmd/Old/Server/Early.antt =====
-- The program as long as no candidate was found.
-- The callback is not called with a candidate.
use yamrp.Prelude.{Bool, List, Option, [], false, none, refl, some, subst, true, ◌≡◌}
use yamrp.Errors.{Error}
use yamrp.Schedules.{Ensures, Holds}
use yamrp.Cmd.Old.{
  Bytes, Exit, closed, failed, on_connection_state_change, on_ice_candidate, other_state, send_text,
  signal_all, stop,
}
use yamrp.Cmd.Old.Server.{
  Event, Externals, Place, Program, alive, answered, answers, blocked, changes, described, gathers,
  go, make_answer, or_panic, scanning, scans, set_remote_description, signals, start, starting,
  starts, step, ticks,
}

abbrev pub FindsNone : Event → Type 0
FindsNone (gathers (some c)) = ⊥
FindsNone _ = Unit

module _ {D : Type 0} where
  -- Where main can be while no candidate was found.
  abbrev pub IsEarly : Place D → Bool → Type 0
  IsEarly starting remote = remote ≡ false
  IsEarly (scanning passed) remote = (remote ≡ false) × (passed ≡ [])
  IsEarly (described passed) remote = passed ≡ []
  IsEarly (answered passed) remote = passed ≡ []
  IsEarly blocked remote = Unit

  abbrev pub Early : Program D → Type 0
  Early s = IsEarly s.place s.peer.remote × (s.peer.pending ≡ []) × (s.peer.printed ≡ [])

  or_panic-Early :
      (o : Option Error) (s next : Program D) → Early s → Early next → Early (or_panic o s next)
  unfolding or_panic stop
  or_panic-Early none s next v w = w
  or_panic-Early (some e) s next v w = v

module _ {D : Type 0} (ext : Externals D) where
  pub alive-Ensures :
      (P : Program D → Type 0) (o : Option Exit) (n : Option (Program D))
      → Holds P n
      → Ensures P (alive ext o n)
  alive-Ensures P (some e) n h = tt
  alive-Ensures P none none h = tt
  alive-Ensures P none (some t) h = h

  start-Early : (s : Program D) → s.place ≡ starting → Early s → Early (start ext s)
  unfolding start
  start-Early s at v =
      or_panic-Early ext.new_peer_connection s _ v
        (((subst (λ l. IsEarly l s.peer.remote) at v.0, v.1), v.1, v.2))

  set_remote-Early :
      (passed : List Bytes) (line : Bytes) (err : Option Error) (s : Program D)
      → s.place ≡ scanning passed
      → Early s
      → Early (set_remote_description ext passed line err s)
  unfolding set_remote_description
  set_remote-Early passed line err s at v =
      let (sdp, sdp_err) = ext.unmarshal (ext.decode line).0 in
      let next : Program D = record s {
        place = described passed;
        peer = record s.peer { remote = true };
      } in
      let set = or_panic (ext.set_remote_description sdp) s next in
      let here : IsEarly {D = D} (scanning passed) s.peer.remote =
        subst (λ l. IsEarly l s.peer.remote) at v.0 in
      or_panic-Early err s (or_panic sdp_err s set) v (
        or_panic-Early sdp_err s set v
          (or_panic-Early (ext.set_remote_description sdp) s next v ((here.1, v.1, v.2))))

  make_answer-Early :
      (passed : List Bytes) (s : Program D)
      → s.place ≡ described passed
      → Early s
      → Early (make_answer ext passed s)
  unfolding make_answer
  make_answer-Early passed s at v =
      let (answer, answer_err) = ext.create_answer in
      let (payload, marshal_err) = ext.marshal answer in
      let printed : Program D = record s { answer = some (ext.encode payload) } in
      let next : Program D = record printed { place = answered passed } in
      let set = or_panic (ext.set_local_description answer) printed next in
      let here : IsEarly {D = D} (described passed) s.peer.remote =
        subst (λ l. IsEarly l s.peer.remote) at v.0 in
      or_panic-Early answer_err s (or_panic marshal_err s set) v (
        or_panic-Early marshal_err s set v
          (or_panic-Early (ext.set_local_description answer) printed next (v) ((here, v.1, v.2))))

  go-Early :
      (l : Place D) (e : Event) (s : Program D)
      → s.place ≡ l
      → FindsNone e
      → Early s
      → Holds Early (go ext l e s)
  unfolding go on_ice_candidate on_connection_state_change send_text stop signal_all
  go-Early starting starts s at q v = start-Early s at v
  go-Early starting e s at q v = tt
  go-Early (scanning passed) (scans line err) s at q v = set_remote-Early passed line err s at v
  go-Early (described passed) answers s at q v = make_answer-Early passed s at v
  go-Early (answered passed) signals s at q v =
      let here : IsEarly {D = D} (answered passed) s.peer.remote =
        subst (λ l. IsEarly l s.peer.remote) at v.0 in
      rw here ((tt, v.1, v.2))
  go-Early l (gathers (some c)) s at q v = absurd q
  go-Early l (gathers none) s at q v = v
  go-Early l (changes failed) s at q v = v
  go-Early l (changes closed) s at q v = v
  go-Early l (changes other_state) s at q v = v
  go-Early l (ticks none) s at q v = v
  go-Early l (ticks (some err)) s at q v = v
  go-Early l e s at q v = tt

  pub step-Early :
      (e : Event) (s : Program D) → FindsNone e → Early s → Ensures Early (step ext e s)
  unfolding step
  step-Early e s q v = alive-Ensures Early s.peer.over _ (go-Early s.place e s refl q v)
