-- ===== src/Server/Host/Runs.antt =====
-- Schedules of the host service: what every step keeps, a schedule keeps.
use mathlib.Core.Option.{some-injective}
use yamrp.Prelude.{
  All, Bool, List, Option, Option-cases, [], false, if◌then◌else◌, inl, inr, none, refl, some,
  subst, true, ◌∷◌, ◌≡◌,
}
use yamrp.Server.Host.{Event, HostServer, alive_step, run, step}

abbrev pub Ensures {ℓ} : (HostServer → Type ℓ) → Option HostServer → Type ℓ
Ensures P none = Unit
Ensures P (some s) = P s

-- The first event of a schedule that can run, and what is left.
pub run_cons :
    (e : Event) (es : List Event) (s : HostServer) {t : HostServer}
    → run (e ∷ es) s ≡ some t
    → (s' : HostServer) × (step e s ≡ some s') × (run es s' ≡ some t)
unfolding run
run_cons e es s {t} h = elim (Option-cases (step e s)) [
  | inl refused ↦ cc (rw (refused, run) at h)
  | inr (s', taken) ↦ (s', taken, rw (taken, run) at h)
]

-- What every event that a living server takes ensures, every step ensures.
pub step-Ensures {ℓ} :
    (P : HostServer → Type ℓ) (e : Event) (s : HostServer)
    → Ensures P (alive_step e s)
    → Ensures P (step e s)
unfolding step
step-Ensures P e s h = guarded s.panicked
  where
    guarded : (b : Bool) → Ensures P (if b then none else alive_step e s)
    guarded true = tt
    guarded false = h

pub step_refused : (e : Event) (s : HostServer) → alive_step e s ≡ none → step e s ≡ none
unfolding step
step_refused e s h = guarded s.panicked
  where
    guarded : (b : Bool) → (if b then none else alive_step e s) ≡ none
    guarded true = refl
    guarded false = h

-- What the steps of certain events keep, a schedule of such events keeps.
pub run_keeps_if {ℓ κ} :
    (Q : Event → Type κ) (P : HostServer → Type ℓ)
    → ((e : Event) (s : HostServer) → Q e → P s → Ensures P (alive_step e s))
    → (es : List Event) (s : HostServer) {t : HostServer} → All Q es
    → P s
    → run es s ≡ some t
    → P t
unfolding run
run_keeps_if Q P keep [] s q v h = subst P (some-injective _ _ h) v
run_keeps_if Q P keep (e ∷ es) s q v h =
    let (s', taken, rest) = run_cons e es s h in
    run_keeps_if Q P keep es s' q.1 (subst (Ensures P) taken (step-Ensures P e s (keep e s q.0 v)))
      rest

-- What every step keeps, a schedule keeps.
pub run_keeps {ℓ} :
    (P : HostServer → Type ℓ)
    → ((e : Event) (s : HostServer) → P s → Ensures P (alive_step e s))
    → (es : List Event) (s : HostServer) {t : HostServer} → P s
    → run es s ≡ some t
    → P t
unfolding run
run_keeps P keep [] s v h = subst P (some-injective _ _ h) v
run_keeps P keep (e ∷ es) s v h =
    let (s', taken, rest) = run_cons e es s h in
    run_keeps P keep es s' (subst (Ensures P) taken (step-Ensures P e s (keep e s v))) rest
