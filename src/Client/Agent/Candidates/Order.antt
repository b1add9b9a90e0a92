-- ===== src/Client/Agent/Candidates/Order.antt =====
-- Which candidates of the stream are added.
use mathlib.Core.List.{append-nil, append_assoc}
use yamrp.Prelude.{
  Bool-cases, List, Option, String, [], ap, arith, false, if◌then◌else◌, inl, inr, none, refl, some,
  sym, true, ◌++◌, ◌∙◌, ◌∷◌, ◌≡◌, ◌⊎◌,
}
use yamrp.Errors.{Error, is_failure}
use yamrp.Client.Agent.Candidates.{
  Event, Place, Receiver, deaf, listening, opens, recv, returned, run, server_closes, step, step_at,
  take_candidate, times_out,
}

-- The candidates that Recv returned before the first of these: Recv returns an error or nothing, or
-- one of the two contexts is done.
pub heard_in_time : List Event → List String
heard_in_time [] = []
heard_in_time (recv (some c) err ∷ es) = if is_failure err then [] else c ∷ heard_in_time es
heard_in_time (recv none err ∷ es) = []
heard_in_time (times_out ∷ es) = []
heard_in_time (server_closes ∷ es) = []
heard_in_time (opens has_stream err ∷ es) = heard_in_time es

-- The candidates up to the first that AddICECandidate refuses, and that one.
pub up_to_refused : (add_ice_candidate : String → Option Error) → List String → List String
up_to_refused add_ice_candidate [] = []
up_to_refused add_ice_candidate (c ∷ cs) =
    c ∷ (if is_failure (add_ice_candidate c) then [] else up_to_refused add_ice_candidate cs)

-- The goroutine waits for a context or has returned.
abbrev pub Quiet : Place → Type 0
Quiet p = (p ≡ deaf) ⊎ (p ≡ returned)

module _ (add_ice_candidate : String → Option Error) where
  step-Quiet :
      (e : Event) (r : Receiver)
      → Quiet r.place
      → Quiet (step add_ice_candidate e r).place × ((step add_ice_candidate e r).added ≡ r.added)
  unfolding step step_at
  step-Quiet e r (inl h) = (ground arith, ground arith)
  step-Quiet e r (inr h) = (ground arith, ground arith)

  run-Quiet :
      (es : List Event) (r : Receiver)
      → Quiet r.place
      → Quiet (run add_ice_candidate es r).place × ((run add_ice_candidate es r).added ≡ r.added)
  unfolding run
  run-Quiet [] r h = (h, refl)
  run-Quiet (e ∷ es) r h =
      let next = step-Quiet e r h in
      let later = run-Quiet es (step add_ice_candidate e r) next.0 in (later.0, later.1 ∙ next.1)

  abbrev after : Event → Receiver → Receiver
  after e r = step add_ice_candidate e r

  -- Nothing is added once the goroutine is quiet.
  quiet_after :
      (e : Event) (es : List Event) (r : Receiver) (xs : List String)
      → Quiet (after e r).place
      → (after e r).added ≡ xs
      → (run add_ice_candidate (e ∷ es) r).added ≡ xs
  unfolding run
  quiet_after e es r xs q same = (run-Quiet es (after e r) q).1 ∙ same

  refused_recv :
      (x : String) (err : Option Error) (r : Receiver)
      → r.place ≡ listening
      → is_failure err ≡ true
      → Quiet (after (recv (some x) err) r).place × ((after (recv (some x) err) r).added ≡ r.added)
  unfolding step step_at
  refused_recv x err r h failed = (ground arith, ground arith)

  refused_add :
      (x : String) (err : Option Error) (r : Receiver)
      → r.place ≡ listening
      → is_failure err ≡ false
      → is_failure (add_ice_candidate x) ≡ true
      → Quiet (after (recv (some x) err) r).place
        × ((after (recv (some x) err) r).added ≡ r.added ++ x ∷ [])
  unfolding step step_at take_candidate
  refused_add x err r h good refused = (ground arith, ground arith)

  accepted_add :
      (x : String) (err : Option Error) (r : Receiver)
      → r.place ≡ listening
      → is_failure err ≡ false
      → is_failure (add_ice_candidate x) ≡ false
      → ((after (recv (some x) err) r).place ≡ listening)
        × ((after (recv (some x) err) r).added ≡ r.added ++ x ∷ [])
  unfolding step step_at take_candidate
  accepted_add x err r h good accepted = (ground arith, ground arith)

  -- From the moment at which it listens, under any order of events, the goroutine hands to the peer
  -- connection exactly these candidates, in this order: those that Recv returns before it first
  -- returns an error or nothing and before one of the two contexts is done, up to the first that
  -- AddICECandidate refuses, and that one.
  pub added_in_order :
      (es : List Event) (r : Receiver)
      → r.place ≡ listening
      → (run add_ice_candidate es r).added
        ≡ r.added ++ up_to_refused add_ice_candidate (heard_in_time es)
  unfolding run heard_in_time up_to_refused step step_at
  added_in_order [] r h = sym (append-nil r.added)
  added_in_order (recv none err ∷ es) r h =
      quiet_after (recv none err) es r _ (ground arith) (ground (arith, append-nil r.added))
  added_in_order (recv (some x) err ∷ es) r h = elim (Bool-cases (is_failure err)) [
    | inl failed ↦
        let now = refused_recv x err r h failed in
        rw failed (quiet_after (recv (some x) err) es r _ now.0 (now.1 ∙ sym (append-nil r.added)))
    | inr good ↦ elim (Bool-cases (is_failure (add_ice_candidate x))) [
      | inl refused ↦
          let now = refused_add x err r h good refused in
          rw (good, up_to_refused, refused) (quiet_after (recv (some x) err) es r _ now.0 now.1)
      | inr accepted ↦
          let now = accepted_add x err r h good accepted in
          let rest = up_to_refused add_ice_candidate (heard_in_time es) in
          rw (good, up_to_refused, accepted)
            (added_in_order es (after (recv (some x) err) r) now.0
              ∙ (ap (λ y. y ++ rest) now.1 ∙ append_assoc r.added (x ∷ []) rest))
    ]
  ]
  added_in_order (times_out ∷ es) r h =
      quiet_after times_out es r _ (ground arith) (ground (arith, append-nil r.added))
  added_in_order (server_closes ∷ es) r h =
      quiet_after server_closes es r _ (ground arith) (ground (arith, append-nil r.added))
  added_in_order (opens has_stream err ∷ es) r h =
      let same : (after (opens has_stream err) r).added ≡ r.added = ground arith in
      let later = added_in_order es (after (opens has_stream err) r) (ground arith) in
      later ∙ ap (λ y. y ++ up_to_refused add_ice_candidate (heard_in_time es)) same

  stops :
      (c : Option String) (err : Option Error) (r : Receiver)
      → r.place ≡ listening
      → (is_failure err ≡ true) ⊎ (c ≡ none)
      → Quiet (step add_ice_candidate (recv c err) r).place
        × ((step add_ice_candidate (recv c err) r).added ≡ r.added)
  unfolding step step_at
  stops c err r h (inl failed) = (ground arith, ground arith)
  stops c err r h (inr nothing) = (ground arith, ground arith)

  -- Once Recv has returned an error or nothing, whatever comes later adds no candidate, and the
  -- goroutine listens no more: it waits for a context or has returned.
  end_of_stream :
      (c : Option String) (err : Option Error) (es : List Event) (r : Receiver)
      → r.place ≡ listening
      → (is_failure err ≡ true) ⊎ (c ≡ none)
      → Quiet (run add_ice_candidate (recv c err ∷ es) r).place
        × ((run add_ice_candidate (recv c err ∷ es) r).added ≡ r.added)
  unfolding run
  end_of_stream c err es r h ended =
      let now = stops c err r h ended in
      let later = run-Quiet es (step add_ice_candidate (recv c err) r) now.0 in
      (later.0, later.1 ∙ now.1)
