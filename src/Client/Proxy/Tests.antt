-- ===== src/Client/Proxy/Tests.antt =====
-- The theorems about a proxy at concrete schedules.
use yamrp.Prelude.{List, [], arith, false, none, refl, some, true, ◌++◌, ◌∷◌, ◌≡◌}
use yamrp.Errors.{Error, eof}
use yamrp.Chan.{Chan, make_chan, receive, send}
use yamrp.Client.Proxy.{
  Event, Proxy, close, closes, messages, new_proxy, read_returns, reading, reads, run, step,
  waiting, writer_take, writes,
}
use yamrp.Client.Proxy.Flow.{delivered, delivered_in_order, in_write, read_data, sent_in_order}
use yamrp.Client.Proxy.Closing.{ClosesOnce, close_once}

abbrev eol_chan : Chan Error
eol_chan = make_chan 1

abbrev session : List Event
session =
    messages (1 ∷ [])
    ∷ messages (2 ∷ 3 ∷ [])
    ∷ writer_take
    ∷ reads (9 ∷ []) (some eof) none
    ∷ writes none
    ∷ closes
    ∷ []

abbrev session_end : Proxy
session_end = record {
  writing_buf = record { capacity = 1024; queue = (2 ∷ 3 ∷ []) ∷ [] };
  eol_sig = eol_chan;
  stopped = record { capacity = 1; queue = tt ∷ [] };
  write_closed = true;
  read_closed = true;
  conn_closes = 1;
  panicked = false;
  reader = reading;
  writer = waiting;
  left_writes = [];
  sent = (9 ∷ []) ∷ [];
  written = (1 ∷ []) ∷ [];
}

session_runs : run session (new_proxy eol_chan) ≡ some session_end
unfolding run step new_proxy close send receive read_returns
session_runs = refl

close_once_example : (session_end.panicked ≡ false) × ClosesOnce session_end
close_once_example = close_once eol_chan session session_runs

sent_in_order_example : session_end.sent ≡ read_data session
sent_in_order_example = sent_in_order eol_chan session session_runs

delivered_in_order_example :
    session_end.written ++ (in_write session_end.writer ++ session_end.writing_buf.queue)
    ≡ delivered session
delivered_in_order_example = delivered_in_order eol_chan session (omega arith) session_runs
