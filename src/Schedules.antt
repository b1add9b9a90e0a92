-- ===== src/Schedules.antt =====
-- Schedules: lists of events that a state machine takes one after another. A step may be refused,
-- and what it puts out beside the new state is dropped here.
use mathlib.Core.Option.{some-injective}
use mathlib.Core.List.{append-nil, append_assoc}
use yamrp.Prelude.{
  All, List, Option, Option-cases, [], ap, arith, inl, inr, none, refl, some, subst, sym, ℕ, ◌++◌,
  ◌+◌, ◌∙◌, ◌∷◌, ◌≡◌, ◌≤◌,
}

abbrev pub Ensures {ℓ κ μ} : {S : Type ℓ} {O : Type κ} → (S → Type μ) → Option (S × O) → Type μ
Ensures P none = Unit
Ensures P (some (s, out)) = P s

module _ {E S O : Type 0} (step : E → S → Option (S × O)) where
  -- `none` if some event cannot happen when its turn comes
  unfoldable pub run : List E → S → Option S
  run [] s = some s
  run (e ∷ es) s = elim (step e s) [ none ↦ none | some (s', out) ↦ run es s' ]

  -- The first event of a schedule that can run, and what is left.
  pub run_cons :
      (e : E) (es : List E) (s : S) {t : S}
      → run (e ∷ es) s ≡ some t
      → (s' : S) × (out : O) × (step e s ≡ some (s', out)) × (run es s' ≡ some t)
  unfolding run
  run_cons e es s h = elim (Option-cases (step e s)) [
    | inl refused ↦ cc (rw (refused, run) at h)
    | inr ((s', out), taken) ↦ (s', out, taken, rw (taken, run) at h)
  ]

  -- A schedule goes on from the state after its first event.
  pub run_taken :
      (e : E) (es : List E) (s : S) {s' t : S} {out : O}
      → step e s ≡ some (s', out)
      → run (e ∷ es) s ≡ some t
      → run es s' ≡ some t
  unfolding run
  run_taken e es s taken h = rw (taken, run) at h

  pub run_next :
      (e : E) (es : List E) (s : S) {s' : S} {out : O}
      → step e s ≡ some (s', out)
      → run (e ∷ es) s ≡ run es s'
  unfolding run
  run_next e es s taken = rw (taken, run) refl

  -- What every step keeps, a schedule keeps.
  pub run_keeps {ℓ} :
      (P : S → Type ℓ)
      → ((e : E) (s : S) → P s → Ensures P (step e s))
      → (es : List E) (s : S) {t : S} → P s
      → run es s ≡ some t
      → P t
  unfolding run
  run_keeps P keep [] s v h = subst P (some-injective _ _ h) v
  run_keeps P keep (e ∷ es) s v h =
      let (s', out, taken, rest) = run_cons e es s h in
      run_keeps P keep es s' (subst (Ensures P) taken (keep e s v)) rest

  -- What the steps of certain events keep, a schedule of such events keeps.
  pub run_keeps_if {ℓ κ} :
      (Q : E → Type κ) (P : S → Type ℓ)
      → ((e : E) (s : S) → Q e → P s → Ensures P (step e s))
      → (es : List E) (s : S) {t : S} → All Q es
      → P s
      → run es s ≡ some t
      → P t
  unfolding run
  run_keeps_if Q P keep [] s q v h = subst P (some-injective _ _ h) v
  run_keeps_if Q P keep (e ∷ es) s q v h =
      let (s', out, taken, rest) = run_cons e es s h in
      run_keeps_if Q P keep es s' q.1 (subst (Ensures P) taken (keep e s q.0 v)) rest

abbrev pub collect {ℓ} : {E : Type 0} {A : Type ℓ} → (E → List A) → List E → List A
collect g [] = []
collect g (e ∷ es) = g e ++ collect g es

-- What every event appends to a list, a schedule appends in its order.
pub run_collects {ℓ} :
    {E S O : Type 0} {A : Type ℓ} (step : E → S → Option (S × O)) (f : S → List A) (g : E → List A)
    → ((e : E) (s s' : S) (out : O) → step e s ≡ some (s', out) → f s' ≡ f s ++ g e)
    → (es : List E) (s : S) {t : S} → run step es s ≡ some t
    → f t ≡ f s ++ collect g es
unfolding run
run_collects step f g appends [] s h = sym (ap f (some-injective _ _ h)) ∙ sym (append-nil (f s))
run_collects step f g appends (e ∷ es) s h =
    let (s', out, taken, rest) = run_cons step e es s h in
    run_collects step f g appends es s' rest
    ∙ (ap (λ y. y ++ collect g es) (appends e s s' out taken)
        ∙ append_assoc (f s) (g e) (collect g es))

abbrev pub total : {E : Type 0} → (E → ℕ) → List E → ℕ
total g [] = 0
total g (e ∷ es) = g e + total g es

-- What every event raises by at most a number, a schedule raises by at most the sum of these.
pub run_counts :
    {E S O : Type 0} (step : E → S → Option (S × O)) (f : S → ℕ) (g : E → ℕ)
    → ((e : E) (s s' : S) (out : O) → step e s ≡ some (s', out) → f s' ≤ f s + g e)
    → (es : List E) (s : S) {t : S} → run step es s ≡ some t
    → f t ≤ f s + total g es
unfolding run
run_counts step f g raises [] s h = omega (arith, ap f (some-injective _ _ h))
run_counts step f g raises (e ∷ es) s h =
    let (s', out, taken, rest) = run_cons step e es s h in
    omega (arith, run_counts step f g raises es s' rest, raises e s s' out taken)

-- The same for a step that puts nothing out.
abbrev pub Holds {ℓ μ} : {S : Type ℓ} → (S → Type μ) → Option S → Type μ
Holds P none = Unit
Holds P (some s) = P s
