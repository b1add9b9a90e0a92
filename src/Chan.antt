-- ===== src/Chan.antt =====
-- Buffered Go channels: a capacity and the values sent and not yet received, oldest first.
-- `none` means that the operation would block. An unbuffered channel holds nothing: a send on it
-- happens together with a receive, which the modules that use one model as a single step.
pub mod Laws
use yamrp.Prelude.{ℕ, List, [], ◌∷◌, ◌++◌, Option, none, some, ltb, length, if◌then◌else◌}

pub record Chan {ℓ} (A : Type ℓ) : Type ℓ where
  pub capacity : ℕ
  pub queue : List A

module _ {ℓ} {A : Type ℓ} where
  -- make(chan A, n)
  abbrev pub make_chan : ℕ → Chan A
  make_chan n = record { capacity = n; queue = [] }

  -- c <- a
  unfoldable pub send : Chan A → A → Option (Chan A)
  send c a =
      if ltb (length c.queue) c.capacity
      then some (record c { queue = c.queue ++ a ∷ [] })
      else none

  abbrev pub take_first : ℕ → List A → Option (A × Chan A)
  take_first n [] = none
  take_first n (a ∷ rest) = some (a, record { capacity = n; queue = rest })

  -- <-c
  unfoldable pub receive : Chan A → Option (A × Chan A)
  receive c = take_first c.capacity c.queue
