-- ===== src/Cmd/Old/Server/Printed.antt =====
-- What the program prints of its candidates.
use mathlib.Core.List.{append-nil, append_assoc}
use mathlib.Core.Option.{some-injective}
use yamrp.Prelude.{
  All, Bool, List, Option, [], ap, none, refl, some, subst, sym, true, ◌++◌, ◌∙◌, ◌∷◌, ◌≡◌,
}
use yamrp.Errors.{Error}
use yamrp.Schedules.{Ensures, Holds, collect, run, run_cons, run_keeps_if}
use yamrp.Cmd.Old.{
  Bytes, Peer, closed, failed, on_connection_state_change, on_ice_candidate, other_state, send_text,
  signal_all, signal_candidate, stop,
}
use yamrp.Cmd.Old.Server.{
  Event, Externals, Place, Program, answered, answers, blocked, changes, described, gathers, go,
  make_answer, new_program, or_panic, scanning, signals, starting, step, ticks, with_peer,
}
use yamrp.Cmd.Old.Server.Early.{Early, FindsNone, IsEarly, alive-Ensures, step-Early}

module _ {D : Type 0} where
  -- Where main can be once the description is set; setRemoteDescription was given no candidate.
  abbrev pub IsDescribed : Place D → Type 0
  IsDescribed (described passed) = passed ≡ []
  IsDescribed (answered passed) = passed ≡ []
  IsDescribed blocked = Unit
  IsDescribed _ = ⊥

  abbrev pub After : Program D → Type 0
  After s = IsDescribed s.place × (s.peer.remote ≡ true)

  abbrev Prints : List Bytes → List Bytes → Program D → Type 0
  Prints before more s = After s × (s.peer.printed ≡ before ++ more)

  or_panic-Prints :
      (before more : List Bytes) (o : Option Error) (s next : Program D)
      → Prints before more s
      → Prints before more next
      → Prints before more (or_panic o s next)
  unfolding or_panic stop
  or_panic-Prints before more none s next v w = w
  or_panic-Prints before more (some e) s next v w = v

  Early-After : (l : Place D) (r : Bool) → IsEarly l r → r ≡ true → IsDescribed l
  Early-After starting r e h = cc
  Early-After (scanning passed) r e h = cc (e.0)
  Early-After (described passed) r e h = e
  Early-After (answered passed) r e h = e
  Early-After blocked r e h = tt

  with_place : (s : Program D) {l : Place D} → s.place ≡ l → After s → IsDescribed l
  with_place s at v = subst IsDescribed at v.0

module _ {D : Type 0} (ext : Externals D) where
  abbrev pub line_of : Event → List Bytes
  line_of (gathers (some c)) = ext.encode c ∷ []
  line_of _ = []

  same-Prints : (s : Program D) → After s → Prints s.peer.printed [] s
  same-Prints s v = (v, sym (append-nil s.peer.printed))

  make_answer-Prints :
      (passed : List Bytes) (s : Program D)
      → passed ≡ []
      → After s
      → Prints s.peer.printed [] (make_answer ext passed s)
  unfolding make_answer
  make_answer-Prints passed s e v =
      let (answer, answer_err) = ext.create_answer in
      let (payload, marshal_err) = ext.marshal answer in
      let printed : Program D = record s { answer = some (ext.encode payload) } in
      let before = s.peer.printed in
      let same = append-nil before in
      let next : Program D = record printed { place = answered passed } in
      let set = or_panic (ext.set_local_description answer) printed next in
      or_panic-Prints before [] answer_err s (or_panic marshal_err s set) (same-Prints s v) (
        or_panic-Prints before [] marshal_err s set (same-Prints s v) (
          or_panic-Prints before [] (ext.set_local_description answer) printed next (v, sym same)
            ((e, v.1), sym same)))

  kept :
      (s : Program D) (p : Peer)
      → After s
      → p.remote ≡ true
      → p.printed ≡ s.peer.printed
      → Prints s.peer.printed [] (with_peer ext s p)
  kept s p v set printed = ((v.0, set), printed ∙ sym (append-nil s.peer.printed))

  go-Prints :
      (l : Place D) (e : Event) (s : Program D)
      → s.place ≡ l
      → After s
      → Holds (Prints s.peer.printed (line_of e)) (go ext l e s)
  unfolding go on_ice_candidate signal_candidate on_connection_state_change send_text stop
      signal_all
  go-Prints starting e s at v = absurd (with_place s at v)
  go-Prints (scanning passed) e s at v = absurd (with_place s at v)
  go-Prints (described passed) answers s at v = make_answer-Prints passed s (with_place s at v) v
  go-Prints (answered passed) signals s at v =
      rw (with_place s at v) ((tt, v.1), sym (append-nil s.peer.printed))
  go-Prints l (gathers none) s at v = (v, sym (append-nil s.peer.printed))
  go-Prints l (gathers (some c)) s at v = rw v.1 ((v.0, refl), refl)
  go-Prints l (changes failed) s at v = (v, sym (append-nil s.peer.printed))
  go-Prints l (changes closed) s at v = (v, sym (append-nil s.peer.printed))
  go-Prints l (changes other_state) s at v = (v, sym (append-nil s.peer.printed))
  go-Prints l (ticks none) s at v = (v, sym (append-nil s.peer.printed))
  go-Prints l (ticks (some err)) s at v = (v, sym (append-nil s.peer.printed))
  go-Prints l e s at v = tt

  step-Prints :
      (e : Event) (s : Program D)
      → After s
      → Ensures (Prints s.peer.printed (line_of e)) (step ext e s)
  unfolding step
  step-Prints e s v = alive-Ensures ext _ s.peer.over _ (go-Prints s.place e s refl v)

  run-Prints :
      (es : List Event) (s : Program D) {t : Program D}
      → After s
      → run (step ext) es s ≡ some t
      → t.peer.printed ≡ s.peer.printed ++ collect line_of es
  unfolding run
  run-Prints [] s v h =
      sym (ap (λ x. x.peer.printed) (some-injective _ _ h)) ∙ sym (append-nil s.peer.printed)
  run-Prints (e ∷ es) s v h =
      let (s', out, taken, rest) = run_cons (step ext) e es s h in
      let stepped : Prints s.peer.printed (line_of e) s' =
        subst (Ensures (Prints s.peer.printed (line_of e))) taken (step-Prints e s v) in
      run-Prints es s' stepped.0 rest
      ∙ (ap (λ x. x ++ collect line_of es) stepped.1
          ∙ append_assoc s.peer.printed (line_of e) (collect line_of es))

  -- Let no candidate be found before the description of the offer is set. Then, under any schedule
  -- after that, the program prints exactly the candidates that are found, encoded, in their order.
  pub candidates_are_printed :
      (before after : List Event) (s : Program D) {t : Program D}
      → All FindsNone before
      → run (step ext) before new_program ≡ some s
      → s.peer.remote ≡ true
      → run (step ext) after s ≡ some t
      → t.peer.printed ≡ collect line_of after
  candidates_are_printed before after s {t} q h set more =
      let early : Early s =
        run_keeps_if (step ext) FindsNone Early (step-Early ext) before new_program q
          ((refl, refl, refl)) h in
      let v : After s = (Early-After s.place s.peer.remote early.0 set, set) in
      run-Prints after s v more ∙ ap (λ x. x ++ collect line_of after) early.2
