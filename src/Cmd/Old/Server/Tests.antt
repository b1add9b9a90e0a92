-- ===== src/Cmd/Old/Server/Tests.antt =====
-- A run that answers an offer.
use yamrp.Prelude.{List, [], arith, none, refl, some, true, ◌∷◌, ◌≡◌}
use yamrp.Schedules.{collect, run}
use yamrp.Cmd.Old.{
  Bytes, Peer, closed, exited, new_peer, on_connection_state_change, on_ice_candidate, send_text,
  signal_all, signal_candidate, stop,
}
use yamrp.Cmd.Old.Server.{
  new_program, Event, Externals, Program, answers, blocked, changes, described, gathers, go,
  make_answer, or_panic, scans, set_remote_description, signals, start, starts, step, ticks,
}
use yamrp.Cmd.Old.Server.Printed.{candidates_are_printed, line_of}

-- Texts are their own encodings, and descriptions are texts.
abbrev externals : Externals Bytes
externals = record {
  encode = λ b. b;
  decode = λ b. (b, none);
  unmarshal = λ b. (b, none);
  new_peer_connection = none;
  set_remote_description = λ d. none;
  create_answer = (7 ∷ [], none);
  marshal = λ d. (d, none);
  set_local_description = λ d. none;
  add_ice_candidate = λ b. none;
}

abbrev before : List Event
before = starts ∷ gathers none ∷ scans (5 ∷ []) none ∷ []

abbrev after : List Event
after =
    answers
    ∷ gathers (some (1 ∷ []))
    ∷ signals
    ∷ gathers (some (2 ∷ []))
    ∷ ticks none
    ∷ changes closed
    ∷ []

abbrev described_peer : Peer
described_peer = record new_peer { remote = true }

abbrev described_program : Program Bytes
described_program = record new_program { place = described []; peer = described_peer }

abbrev last : Program Bytes
last = record {
  place = blocked;
  peer = record described_peer {
    printed = (1 ∷ []) ∷ (2 ∷ []) ∷ [];
    messages = 1;
    over = some exited;
  };
  answer = some (7 ∷ []);
}

describes : run (step externals) before new_program ≡ some described_program
unfolding run step go start set_remote_description or_panic on_ice_candidate
describes = refl

ends_run : run (step externals) after described_program ≡ some last
unfolding run step go make_answer or_panic on_ice_candidate signal_candidate signal_all send_text
    on_connection_state_change stop
ends_run = refl

candidates_are_printed_example : last.peer.printed ≡ collect (line_of externals) after
candidates_are_printed_example =
    candidates_are_printed externals before after described_program (omega arith) describes refl
      ends_run
