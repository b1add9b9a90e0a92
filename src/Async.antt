-- ===== src/Async.antt =====
-- utils/async/future.go. A future is a channel of capacity 1 that is resolved once.
-- The goroutine of `Async` and `Ret` ends by its send, which never waits: the channel is empty.
pub mod Order
mod Tests
use yamrp.Prelude.{
  ℕ, zero, suc, ◌+◌, List, [], ◌∷◌, Option, none, some, Bool, true, false, length, ltb,
  if◌then◌else◌,
}
use yamrp.Errors.{Error}
use yamrp.Chan.{Chan, make_chan, send, receive}

pub record Future {ℓ} (A : Type ℓ) : Type ℓ where
  pub ch : Chan A

-- the variables of `AwaitUnordered`
pub record Unordered {ℓ} (A : Type ℓ) : Type ℓ where
  pub futures : List (Future A)
  pub results : Chan A
  pub cnt : ℕ

pub record ValWithErr {ℓ} (A : Type ℓ) : Type ℓ where
  pub val : A
  pub err : Option Error

module _ {ℓ} {A : Type ℓ} where
  pub new_future : Future A
  new_future = record { ch = make_chan 1 }

  abbrev to_future : Option (Chan A) → Option (Future A)
  to_future none = none
  to_future (some c) = some (record { ch = c })

  -- `none`: the send blocks
  pub resolve : Future A → A → Option (Future A)
  resolve f v = to_future (send f.ch v)

  abbrev and_future : Option (A × Chan A) → Option (A × Future A)
  and_future none = none
  and_future (some (a, c)) = some (a, record { ch = c })

  -- `none`: the receive blocks
  pub await : Future A → Option (A × Future A)
  await f = and_future (receive f.ch)

  -- the future once its goroutine has run; `none` would be a goroutine that waits for ever
  pub async : (Unit {0} → A) → Option (Future A)
  unfolding resolve new_future
  async f = resolve new_future (f tt)

  pub ret : A → Option (Future A)
  unfolding resolve new_future
  ret v = resolve new_future v

pub async_with_err {ℓ} :
    {A : Type ℓ} → (Unit {0} → A × Option Error) → Option (Future (ValWithErr A))
unfolding resolve new_future
async_with_err f = let (v, e) = f tt in resolve new_future (record { val = v; err = e })

module _ {ℓ} {A : Type ℓ} where
  abbrev cons? : A → Option (List A) → Option (List A)
  cons? a none = none
  cons? a (some r) = some (a ∷ r)

  -- `none`: the loop waits for ever on a future that is not resolved
  pub await_all : List (Future A) → Option (List A)
  unfolding await
  await_all [] = some []
  await_all (f ∷ fs) = elim (await f) [ none ↦ none | some (a, f') ↦ cons? a (await_all fs) ]

  -- one round of the inner loop of `AwaitAny`: the first future that is ready
  pub poll : List (Future A) → Option A
  unfolding await
  poll [] = none
  poll (f ∷ fs) = elim (await f) [ none ↦ poll fs | some (a, f') ↦ some a ]

  -- `AwaitAny` over the states that the futures have in successive rounds
  pub await_any : List (List (Future A)) → Option A
  await_any [] = none
  await_any (now ∷ later) = elim (poll now) [ none ↦ await_any later | some a ↦ some a ]

  abbrev keep_first : Future A → Option (Unordered A) → Option (Unordered A)
  keep_first f none = none
  keep_first f (some u) = some (record u { futures = f ∷ u.futures })

  -- one round of the inner loop of `AwaitUnordered`. `case ret <- <-f.ch` first receives from
  -- `f.ch`, waiting for it, and then sends or takes the default, which drops the value.
  pub collect : List (Future A) → Chan A → ℕ → Option (Unordered A)
  unfolding await
  collect [] results cnt = some (record { futures = []; results = results; cnt = cnt })
  collect (f ∷ fs) results cnt = elim (await f) [
    | none ↦ none
    | some (a, f') ↦ elim (send results a) [
      | none ↦ keep_first f' (collect fs results cnt)
      | some more ↦ keep_first f' (collect fs more (cnt + 1))
    ]
  ]

  -- the outer loop, `for cnt < len(fs)`, on fuel
  pub collect_loop : ℕ → ℕ → Unordered A → Option (Chan A)
  collect_loop zero n u = none
  collect_loop (suc fuel) n u = elim (ltb u.cnt n) [
    | false ↦ some u.results
    | true ↦ elim (collect u.futures u.results u.cnt) [
      | none ↦ none
      | some u' ↦ collect_loop fuel n u'
    ]
  ]

  -- the closed channel that it returns; `none`: it waits for ever
  pub await_unordered : ℕ → List (Future A) → Option (Chan A)
  unfolding collect_loop collect
  await_unordered fuel fs =
      collect_loop fuel (length fs)
        (record { futures = fs; results = make_chan (length fs); cnt = 0 })
