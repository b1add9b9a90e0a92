-- ===== src/Client/Proxy/Runs.antt =====
-- Schedules of a proxy: what every step keeps, a schedule keeps.
use mathlib.Core.Option.{some-injective}
use yamrp.Prelude.{List, Option, Option-cases, [], inl, inr, none, some, subst, ◌∷◌, ◌≡◌}
use yamrp.Client.Proxy.{Event, Proxy, run, step, taken}

abbrev pub Ensures {ℓ} : (Proxy → Type ℓ) → Option Proxy → Type ℓ
Ensures P none = Unit
Ensures P (some p) = P p

pub run_cons :
    (e : Event) (es : List Event) (p : Proxy) {q : Proxy}
    → run (e ∷ es) p ≡ some q
    → (p' : Proxy) × (step e p ≡ some p') × (run es p' ≡ some q)
unfolding run
run_cons e es p {q} h = elim (Option-cases (step e p)) [
  | inl refused ↦ cc (rw (refused, run) at h)
  | inr (p', taken) ↦ (p', taken, rw (taken, run) at h)
]

pub run_keeps {ℓ} :
    (P : Proxy → Type ℓ)
    → ((e : Event) (p : Proxy) → P p → Ensures P (step e p))
    → (es : List Event) (p : Proxy) {q : Proxy} → P p
    → run es p ≡ some q
    → P q
unfolding run
run_keeps P keep [] p v h = subst P (some-injective _ _ h) v
run_keeps P keep (e ∷ es) p v h =
    let (p', taken, rest) = run_cons e es p h in
    run_keeps P keep es p' (subst (Ensures P) taken (keep e p v)) rest
