-- ===== src/Client/Agent/Channels/Tests.antt =====
-- A proxy that signals twice before its goroutine goes on.
use yamrp.Prelude.{List, Option, [], none, refl, some, ◌∷◌, ◌≡◌, ◌⊎◌}
use yamrp.Errors.{closed_pipe, eof}
use yamrp.Schedules.{run}
use yamrp.Client.Agent.Channels.{
  Channel, Ended, Event, channel_closed_once, closes, goes, new_channel, signals, step,
}

abbrev reached : Option Channel → Channel
reached none = new_channel
reached (some s) = s

abbrev events : List Event
events = signals closed_pipe ∷ signals eof ∷ []

abbrev signalled : Channel
signalled = reached (run step events new_channel)

channel_closed_once_example :
    ((t : Channel) × (run step (closes ∷ goes ∷ []) signalled ≡ some t) × Ended t)
    ⊎ (Ended signalled × (step goes signalled ≡ none))
unfolding run step
channel_closed_once_example = channel_closed_once events {s = signalled} refl
