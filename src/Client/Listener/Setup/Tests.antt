-- ===== src/Client/Listener/Setup/Tests.antt =====
-- A set-up that succeeds.
use yamrp.Prelude.{List, Option, [], if◌then◌else◌, map, none, refl, some, ◌∷◌, ◌≡◌, ◌≤◌}
use yamrp.Errors.{Error}
use yamrp.Schedules.{run, total}
use yamrp.Async.Order.{done}
use yamrp.Client.Listener.Setup.{
  Event, Setup, answer_resolves, begin, connected, connected_pushes, connection_failed, failed,
  setup_failed, setup_webrtc, state_changes, step, takes_answer, takes_connected,
}
use yamrp.Client.Listener.Setup.Outcome.{
  any_nil, connections, good_answers, setup_webrtc_outcome, success_needs_connection,
}
use yamrp.Client.Listener.Setup.Callbacks.{late_callback_blocks}

abbrev reached : Option Setup → Setup
reached none = begin
reached (some x) = x

abbrev connects : List Event
connects =
    answer_resolves none
    ∷ takes_answer
    ∷ state_changes connected
    ∷ connected_pushes
    ∷ takes_connected
    ∷ []

abbrev connected_setup : Setup
connected_setup = reached (run step connects begin)

success_needs_connection_example :
    (1 ≤ total connections connects) × (1 ≤ total good_answers connects)
unfolding run step begin
success_needs_connection_example = success_needs_connection connects {t = connected_setup} refl refl

abbrev reconnects : List Event
reconnects =
    state_changes connected ∷ connected_pushes ∷ state_changes connected ∷ state_changes failed ∷ []

abbrev late : Setup
late = reached (run step reconnects connected_setup)

late_callback_blocks_example : (1 ≤ late.connected_calls) × (step connected_pushes late ≡ none)
unfolding run step begin
late_callback_blocks_example =
    late_callback_blocks none (state_changes failed ∷ []) connected_setup {t = late} refl refl refl

abbrev results : List (Option Error)
results = some connection_failed ∷ none ∷ []

setup_webrtc_outcome_example :
    setup_webrtc (map done results) ≡ some (if any_nil results then none else some setup_failed)
setup_webrtc_outcome_example = setup_webrtc_outcome results
