-- ===== src/Client/Agent/Candidates/Tests.antt =====
-- A stream whose second candidate comes with an error.
use yamrp.Prelude.{
  List, Option, String, [], if◌then◌else◌, none, refl, some, str_eq, true, ◌++◌, ◌∷◌, ◌≡◌,
}
use yamrp.Errors.{Error, canceled, eof}
use yamrp.Client.Agent.Candidates.{
  Event, Receiver, listening, new_receiver, opens, recv, run, step, step_at, take_candidate,
  times_out,
}
use yamrp.Client.Agent.Candidates.Order.{added_in_order, heard_in_time, up_to_refused}

abbrev add : String → Option Error
add c = none

abbrev hearing : Receiver
hearing = run add (opens true none ∷ []) new_receiver

abbrev events : List Event
events = recv (some "a") none ∷ recv (some "b") (some canceled) ∷ recv (some "c") none ∷ []

hearing_at : hearing ≡ record { place = listening; added = [] }
unfolding run step step_at
hearing_at = refl

hears_one : (run add events (record { place = listening; added = [] })).added ≡ "a" ∷ []
unfolding run step step_at take_candidate
hears_one = refl

-- A peer connection that refuses the second candidate.
abbrev picky : String → Option Error
picky c = if str_eq c "b" then some canceled else none

abbrev three : List Event
three = recv (some "a") none ∷ recv (some "b") (some eof) ∷ recv (some "c") none ∷ times_out ∷ []

abbrev listener : Receiver
listener = record { place = listening; added = [] }

added_in_order_example :
    (run picky three listener).added ≡ listener.added ++ up_to_refused picky (heard_in_time three)
added_in_order_example = added_in_order picky three listener refl

adds_two : (run picky three listener).added ≡ "a" ∷ "b" ∷ []
unfolding run step step_at take_candidate
adds_two = refl
