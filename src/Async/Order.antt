-- ===== src/Async/Order.antt =====
-- The order in which the combinators of future.go hand their results on.
use yamrp.Prelude.{
  ℕ, zero, suc, ◌+◌, ◌≤◌, ◌≡◌, refl, List, [], ◌∷◌, ◌++◌, map, none, some, arith, length,
  length-append, length-map,
}
use mathlib.Core.List.{append-nil, append_assoc}
use native.Mathlib.Nat.{add-zero}
use yamrp.Chan.{Chan, make_chan, send, receive}
use yamrp.Async.{Future, await_all, await_any, poll, collect, await_unordered, ret, async}

module _ {ℓ} {A : Type ℓ} where
  -- A future whose goroutine has sent `v`, and one whose value has been received.
  abbrev pub done : A → Future A
  done v = record { ch = record { capacity = 1; queue = v ∷ [] } }

  abbrev pub empty : Future A
  empty = record { ch = record { capacity = 1; queue = [] } }

  pub await_all-done : (vs : List A) → await_all (map done vs) ≡ some vs
  unfolding await_all receive
  await_all-done [] = refl
  await_all-done (v ∷ vs) = ground (arith, await_all-done vs)

  drained : List A → List (Future A)
  drained = map (λ _. empty)

  collect-done :
      (vs out : List A) (n cnt : ℕ)
      → length out + length vs ≤ n
      → collect (map done vs) (record { capacity = n; queue = out }) cnt
        ≡ some (record {
          futures = drained vs;
          results = record { capacity = n; queue = out ++ vs };
          cnt = cnt + length vs;
        })
  unfolding collect send receive drained
  collect-done [] out n cnt h = rw (append-nil, add-zero)
  collect-done (v ∷ vs) out n cnt h = ground (
    arith,
    collect-done vs (out ++ v ∷ []) n (cnt + 1),
    append_assoc out (v ∷ []) vs,
    length-append out (v ∷ []),
  )

  -- `AwaitUnordered` on futures that are all resolved, given two rounds, returns a channel that
  -- holds every value, in the order of the arguments.
  pub await_unordered_order :
      (vs : List A) (fuel : ℕ)
      → 2 ≤ fuel
      → await_unordered fuel (map done vs) ≡ some (record { capacity = length vs; queue = vs })
  unfolding await_unordered drained
  await_unordered_order vs zero h = absurd (omega arith)
  await_unordered_order vs (suc zero) h = absurd (omega arith)
  await_unordered_order vs (suc (suc fuel)) h =
      rw (length-map vs done) (ground (arith, collect-done vs [] (length vs) 0))

  collect_blocks :
      (vs : List A) (rest : List (Future A)) (out : Chan A) (cnt : ℕ)
      → collect (map done vs ++ empty ∷ rest) out cnt ≡ none
  unfolding collect receive send
  collect_blocks [] rest out cnt = refl
  collect_blocks (v ∷ vs) rest out cnt = ground (
    arith,
    collect_blocks vs rest out cnt,
    collect_blocks vs rest (record out { queue = out.queue ++ v ∷ [] }) (cnt + 1),
  )

  -- One future that is never resolved keeps `AwaitUnordered` waiting, whatever the fuel and
  -- however many of the others are resolved: nothing of theirs is handed on.
  pub await_unordered_blocks :
      (fuel : ℕ) (vs : List A) (rest : List (Future A))
      → await_unordered fuel (map done vs ++ empty ∷ rest) ≡ none
  unfolding await_unordered
  await_unordered_blocks zero vs rest = refl
  await_unordered_blocks (suc fuel) vs rest =
      let n = length (map done vs ++ empty ∷ rest) in
      ground
        (arith, collect_blocks vs rest (make_chan n) 0, length-append (map done vs) (empty ∷ rest))

  -- What the constructors of futures give is such a resolved future.
  pub ret-done : (v : A) → (ret v ≡ some (done v)) × (async (λ _. v) ≡ some (done v))
  unfolding ret async send
  ret-done v = (refl, refl)

  abbrev pub pending : ℕ → List (Future A)
  pending zero = []
  pending (suc k) = empty ∷ pending k

  poll-pending : (k : ℕ) → poll (pending k) ≡ none
  unfolding poll receive
  poll-pending zero = refl
  poll-pending (suc k) = poll-pending k

  poll_first : (k : ℕ) (v : A) (rest : List (Future A)) → poll (pending k ++ done v ∷ rest) ≡ some v
  unfolding poll receive
  poll_first zero v rest = refl
  poll_first (suc k) v rest = poll_first k v rest

  -- `AwaitAny` returns from the first round in which a future is ready, and of the futures that
  -- are ready in that round, with the value of the one that stands first.
  await_any_first :
      (ks : List ℕ) (k : ℕ) (v : A) (rest : List (Future A)) (later : List (List (Future A)))
      → await_any (map pending ks ++ (pending k ++ done v ∷ rest) ∷ later) ≡ some v
  unfolding await_any
  await_any_first [] k v rest later = ground (arith, poll_first k v rest)
  await_any_first (j ∷ ks) k v rest later =
      ground (arith, poll-pending j, await_any_first ks k v rest later)
