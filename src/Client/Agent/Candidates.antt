-- ===== src/Client/Agent/Candidates.antt =====
-- client/agent.go: the goroutine of initWebRTCAsAnswerer that receives candidates.
pub mod Order
mod Tests
use yamrp.Prelude.{Bool, List, Option, String, [], if◌then◌else◌, none, some, ◌++◌, ◌∷◌}
use yamrp.Errors.{Error, is_failure}

-- WaitForICECandidate returns, a stream or not with an error; the goroutine around Recv returns;
-- the context of the time limit is done; the context of the stream is done.
pub data Event : Type 0 where
  opens : (has_stream : Bool) (err : Option Error) → Event
  recv : (candidate : Option String) (err : Option Error) → Event
  times_out server_closes : Event

-- Where the goroutine is. It is deaf when the goroutine around Recv ended without a send: the next
-- Recv starts only after a candidate, so nothing but the two contexts can go on.
pub data Place : Type 0 where
  opening listening deaf returned panicked : Place

pub record Receiver : Type 0 where
  pub place : Place
  -- the arguments of AddICECandidate, in order
  pub added : List String

abbrev pub new_receiver : Receiver
new_receiver = record { place = opening; added = [] }

-- AddICECandidate is a parameter.
module _ (add_ice_candidate : String → Option Error) where
  -- the case of the select on a candidate
  pub take_candidate : String → Receiver → Receiver
  take_candidate c r = record {
    place = if is_failure (add_ice_candidate c) then returned else listening;
    added = r.added ++ c ∷ [];
  }

  abbrev received : Option String → Receiver → Receiver
  unfolding take_candidate
  received none r = record r { place = deaf }
  received (some c) r = take_candidate c r

  abbrev opened : Bool → Option Error → Receiver → Receiver
  opened has_stream err r =
      if is_failure err
      then record r { place = returned }
      else record r { place = if has_stream then listening else panicked }

  abbrev heard : Option String → Option Error → Receiver → Receiver
  unfolding take_candidate
  heard c err r = if is_failure err then record r { place = deaf } else received c r

  pub step_at : Place → Event → Receiver → Receiver
  unfolding take_candidate
  step_at opening (opens has_stream err) r = opened has_stream err r
  step_at listening (recv c err) r = heard c err r
  step_at listening times_out r = record r { place = returned }
  step_at listening server_closes r = record r { place = returned }
  step_at deaf times_out r = record r { place = returned }
  step_at deaf server_closes r = record r { place = returned }
  step_at _ _ r = r

  pub step : Event → Receiver → Receiver
  unfolding step_at
  step e r = step_at r.place e r

  pub run : List Event → Receiver → Receiver
  unfolding step
  run [] r = r
  run (e ∷ es) r = run es (step e r)
