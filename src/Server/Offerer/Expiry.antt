-- ===== src/Server/Offerer/Expiry.antt =====
-- No entry of the maps stays for ever.
use yamrp.Prelude.{List, String, arith, eq_iff, inl, inr, none, refl, some, ℕ, ◌≡◌}
use yamrp.Schedules.{run, run_keeps}
use yamrp.Server.Offerer.{
  Event, OffererServer, clean_up, new_offerer_server, silent, sleep_ends, sleeping, step,
}
use yamrp.Server.Offerer.Lifetimes.{IsMapped, Timed, cleared_by}
use yamrp.Server.Offerer.Lifetimes.Steps.{step-Timed}

-- A goroutine sleeps that, whenever its sleep ends, clears the entries of an identifier.
abbrev pub IsCleared : OffererServer → String → Type 0
IsCleared s ans =
    (j : ℕ) × (t : OffererServer) × (s.threads j ≡ sleeping ans)
    × (step (sleep_ends j) s ≡ some (t, silent))
    × (t.ans_chans ans ≡ none)
    × (t.ice_chans ans ≡ none)

sleeping-IsCleared :
    (s : OffererServer) (ans : String) (j : ℕ) → s.threads j ≡ sleeping ans → IsCleared s ans
unfolding step clean_up
sleeping-IsCleared s ans j sleeps = (
  j,
  cleared_by j ans s,
  sleeps,
  rw sleeps refl,
  ground (arith, eq_iff ans ans),
  ground (arith, eq_iff ans ans),
)

-- In every reachable state, while an identifier has an entry in one of the two maps, a goroutine
-- sleeps for it, and the end of that sleep can happen and leaves the identifier in neither map.
pub mapped-IsCleared :
    (es : List Event) (ans : String) {s : OffererServer}
    → run step es new_offerer_server ≡ some s
    → IsMapped s ans
    → IsCleared s ans
unfolding new_offerer_server
mapped-IsCleared es ans {s} ran mapped =
    let v = run_keeps step Timed step-Timed es new_offerer_server new_offerer_server-Timed ran in
    let (j, made, sleeps) = v ans mapped in sleeping-IsCleared s ans j sleeps
  where
    new_offerer_server-Timed : Timed new_offerer_server
    new_offerer_server-Timed k (inl m) = absurd (m refl)
    new_offerer_server-Timed k (inr m) = absurd (m refl)
