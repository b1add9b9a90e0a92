-- ===== src/Async/Tests.antt =====
-- The theorems on futures at concrete arguments.
use yamrp.Prelude.{[], arith, map, none, some, ℕ, ◌++◌, ◌∷◌, ◌≡◌}
use yamrp.Async.{await_unordered}
use yamrp.Async.Order.{await_unordered_blocks, await_unordered_order, done, empty}

await_unordered_order_example :
    await_unordered {A = ℕ} 2 (map done (7 ∷ 5 ∷ []))
    ≡ some (record { capacity = 2; queue = 7 ∷ 5 ∷ [] })
await_unordered_order_example = await_unordered_order (7 ∷ 5 ∷ []) 2 (omega arith)

one_unresolved_blocks :
    await_unordered {A = ℕ} 9 (map done (7 ∷ []) ++ empty ∷ map done (5 ∷ [])) ≡ none
one_unresolved_blocks = await_unordered_blocks 9 (7 ∷ []) (map done (5 ∷ []))
