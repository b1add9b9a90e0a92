-- ===== src/Chan/Laws.antt =====
-- What the modules that use a channel need of `send` and `receive`.
use mathlib.Core.Option.{some-injective}
use yamrp.Prelude.{
  List, [], ap, arith, length, length-append, none, some, ℕ, ◌++◌, ◌<◌, ◌∷◌, ◌≡◌, ◌≤◌,
}
use yamrp.Chan.{Chan, receive, send, take_first}

module _ {ℓ} {A : Type ℓ} where
  abbrev pub IsBounded : Chan A → Type 0
  IsBounded c = length c.queue ≤ c.capacity

  pub send-IsBounded : (c d : Chan A) (a : A) → send c a ≡ some d → IsBounded d
  unfolding send
  send-IsBounded c d a h = ground (arith, length-append c.queue (a ∷ []))

  -- A send succeeds exactly when there is room, and appends.
  pub send_room :
      (c : Chan A) (a : A)
      → length c.queue < c.capacity
      → send c a ≡ some (record c { queue = c.queue ++ a ∷ [] })
  unfolding send
  send_room c a h = ground arith

  pub send_full : (c : Chan A) (a : A) → c.capacity ≤ length c.queue → send c a ≡ none
  unfolding send
  send_full c a h = ground arith

  pub send-queue : (c d : Chan A) (a : A) → send c a ≡ some d → d.queue ≡ c.queue ++ a ∷ []
  unfolding send
  send-queue c d a h = ground arith

  take_first-queue :
      (n : ℕ) (q : List A) (d : Chan A) (a : A) → take_first n q ≡ some (a, d) → q ≡ a ∷ d.queue
  take_first-queue n [] d a h = cc
  take_first-queue n (x ∷ rest) d a h = ap (λ y. y.0 ∷ y.1.queue) (some-injective _ _ h)

  -- A receive takes the first value.
  pub receive-queue : (c d : Chan A) (a : A) → receive c ≡ some (a, d) → c.queue ≡ a ∷ d.queue
  unfolding receive
  receive-queue c d a h = take_first-queue c.capacity c.queue d a h
