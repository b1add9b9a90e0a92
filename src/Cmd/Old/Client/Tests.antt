-- ===== src/Cmd/Old/Client/Tests.antt =====
-- A program that waits for the answer, and one that is given candidates.
use yamrp.Prelude.{List, [], none, refl, some, true, ◌∷◌, ◌≡◌}
use yamrp.Errors.{eof}
use yamrp.Schedules.{run}
use yamrp.Cmd.Old.{Bytes, new_peer, on_ice_candidate, signal_all, signal_candidate}
use yamrp.Cmd.Old.Client.{
  Event, Externals, Program, ask_ice_candidate_from_stdin, asking, blocked, calls, gathers, go,
  make_offer, new_program, offers, or_panic, says_end, scanning, scans, set_remote_description,
  signals, slice_panics, step,
}
use yamrp.Cmd.Old.Client.Pasting.{pasted}
use yamrp.Cmd.Old.Client.Lost.{late_candidate_is_lost}

-- Texts are their own encodings, and descriptions are texts.
abbrev externals : Externals Bytes
externals = record {
  encode = λ b. b;
  decode = λ b. (b, none);
  unmarshal = λ b. (b, none);
  new_peer_connection = none;
  create_data_channel = none;
  create_offer = (7 ∷ [], none);
  set_local_description = λ d. none;
  marshal = λ d. (d, none);
  set_remote_description = λ d. none;
}

abbrev waiting : Program
waiting = record new_program {
  place = scanning ((1 ∷ []) ∷ []);
  peer = record new_peer { pending = (1 ∷ []) ∷ [] };
  offer = some (7 ∷ []);
}

abbrev answered : Program
answered = record waiting {
  place = asking;
  peer = record waiting.peer { remote = true; printed = (1 ∷ []) ∷ [] };
}

abbrev to_answer : List Event
to_answer = scans (8 ∷ []) none ∷ signals ∷ []

offers_first :
    run (step externals) (offers ∷ gathers (some (1 ∷ [])) ∷ calls ∷ []) new_program ≡ some waiting
unfolding run step go make_offer or_panic on_ice_candidate
offers_first = refl

answers_next : run (step externals) to_answer waiting ≡ some answered
unfolding run step go set_remote_description or_panic signal_all signal_candidate
answers_next = refl

-- The line is shorter than three bytes.
short_line : ask_ice_candidate_from_stdin externals [] (some eof) ≡ slice_panics
unfolding ask_ice_candidate_from_stdin says_end
short_line = refl

late_candidate_is_lost_example :
    (t' : Program) × (run (step externals) (gathers (some (2 ∷ [])) ∷ to_answer) waiting ≡ some t')
    × (t'.peer.printed ≡ answered.peer.printed)
    × (t'.added ≡ answered.added)
    × (t'.adding ≡ answered.adding)
    × (t'.place ≡ answered.place)
late_candidate_is_lost_example =
    late_candidate_is_lost externals ((1 ∷ []) ∷ []) (2 ∷ []) to_answer waiting refl refl refl
      answers_next

abbrev candidates : List Bytes
candidates = (b'c' ∷ b'a' ∷ b'n' ∷ []) ∷ (b'c' ∷ b'a' ∷ b'n' ∷ b'd' ∷ []) ∷ []

-- The second goroutine calls first, before main is at its last line.
abbrev handed_over : Program
handed_over = record answered {
  place = blocked;
  added = (b'c' ∷ b'a' ∷ b'n' ∷ b'd' ∷ []) ∷ (b'c' ∷ b'a' ∷ b'n' ∷ []) ∷ [];
}

abbrev lines : List Event
lines = pasted (signal_all externals.encode candidates new_peer).printed
