-- ===== src/Server/Offerer/Lifetimes.antt =====
-- The entries of the two maps, and the goroutines of SendOffer that clear them.
pub mod Steps
use yamrp.Prelude.{
  Bool-cases, String, ap, arith, eq_iff, erase, inl, inr, none, refl, str_eq, subst, ℕ, ◌<◌, ◌==◌,
  ◌≡◌, ◌≢◌, ◌⊎◌,
}
use yamrp.Schedules.{Ensures}
use yamrp.Server.Offerer.{
  OffererServer, Thread, absent, clean_up, goes, notifying, send_offer, sleeping, spawn,
}

abbrev pub IsMapped : OffererServer → String → Type 0
IsMapped s ans = (s.ans_chans ans ≢ none) ⊎ (s.ice_chans ans ≢ none)

-- A goroutine that was made sleeps before it clears the entries of `ans`.
abbrev pub Sleeps : OffererServer → String → Type 0
Sleeps s ans = (j : ℕ) × (j < s.spawned) × (s.threads j ≡ sleeping ans)

abbrev pub Timed : OffererServer → Type 0
Timed s = (ans : String) → IsMapped s ans → Sleeps s ans

abbrev IsAwake : Thread → Type 0
IsAwake (sleeping ans) = ⊥
IsAwake _ = Unit

-- Another goroutine goes on.
goes-Sleeps :
    (i : ℕ) (t u : Thread) (s : OffererServer) (ans : String)
    → s.threads i ≡ u
    → u ≢ sleeping ans
    → Sleeps s ans
    → Sleeps (goes i t s) ans
goes-Sleeps i t u s ans is differs (j, made, sleeps) = elim (Bool-cases (i == j)) [
  | inl e ↦
      let same : i ≡ j = ground (arith, e) in absurd (differs (cc (is, ap s.threads same, sleeps)))
  | inr e ↦ (j, made, rw e sleeps)
]

spawn-Sleeps :
    (t : Thread) (s : OffererServer) (ans : String) → Sleeps s ans → Sleeps (spawn t s) ans
spawn-Sleeps t s ans (j, made, sleeps) = (j, omega (arith, made), ground (arith, made, sleeps))

pub goes-Timed :
    (i : ℕ) (t u : Thread) (s : OffererServer)
    → s.threads i ≡ u
    → IsAwake u
    → Timed s
    → Timed (goes i t s)
goes-Timed i t u s is awake v ans m =
    goes-Sleeps i t u s ans is (λ same. subst IsAwake same awake) (v ans m)

pub spawn-Timed : (t : Thread) (s : OffererServer) → Timed s → Timed (spawn t s)
spawn-Timed t s v ans m = spawn-Sleeps t s ans (v ans m)

pub send_offer-Timed :
    (host offer ans off : String) (s : OffererServer)
    → Timed s
    → Ensures Timed (send_offer host offer ans off s)
unfolding send_offer
send_offer-Timed host offer ans off s v k m =
    spawn-Sleeps (notifying host offer ans off) (spawn (sleeping ans) s) k
      (elim (Bool-cases (str_eq ans k)) [
        | inl e ↦ (s.spawned, omega arith, ground (arith, e, eq_iff ans k))
        | inr e ↦ spawn-Sleeps (sleeping ans) s k (v k (rw e at m))
      ])

abbrev pub cleared_by : ℕ → String → OffererServer → OffererServer
cleared_by i ans s =
    goes i absent
      (record s { ice_chans = erase s.ice_chans ans; ans_chans = erase s.ans_chans ans })

pub clean_up-Timed :
    (i : ℕ) (t : Thread) (s : OffererServer)
    → s.threads i ≡ t
    → Timed s
    → Ensures Timed (clean_up i t s)
unfolding clean_up
clean_up-Timed i (sleeping ans) s is v = cleared
  where
    cleared : Timed (cleared_by i ans s)
    cleared k m = elim (Bool-cases (str_eq ans k)) [
      | inl e ↦ elim (rw e at m) [ inl n ↦ absurd (n refl) | inr n ↦ absurd (n refl) ]
      | inr e ↦
          goes-Sleeps i absent (sleeping ans) s k is (λ same. ground (arith, same, e, eq_iff ans k))
            (v k (rw e at m))
    ]
clean_up-Timed i _ s is v = tt

-- The entry of a stream that ends is cleared before its time.
pub ice_erased-Timed :
    (ans : String) (s : OffererServer)
    → Timed s
    → Timed (record s { ice_chans = erase s.ice_chans ans })
ice_erased-Timed ans s v k (inl m) = v k (inl m)
ice_erased-Timed ans s v k (inr m) = elim (Bool-cases (str_eq ans k)) [
  | inl e ↦ absurd ((rw e at m) refl)
  | inr e ↦ v k (inr (rw e at m))
]
