-- ===== src/Client/Proxy.antt =====
-- client/proxy.go: one proxied connection. A state holds the proxy, where its two loops wait, and
-- what has gone out on both sides. An event is a loop, a callback or the owner going on; `none`
-- means that the event cannot happen. Closing a closed channel panics.
pub mod Runs
pub mod Closing
pub mod Flow
mod Tests
use yamrp.Prelude.{
  Bool, List, Option, [], false, if◌then◌else◌, none, some, true, ℕ, ◌++◌, ◌+◌, ◌||◌, ◌∷◌,
}
use yamrp.Errors.{Error, closed_pipe, eof, net_closed, other}
use yamrp.Chan.{Chan, make_chan, receive, send}

abbrev pub Bytes : Type 0
Bytes = List ℕ

-- `writingLoop` at its outer select, in the inner select for some data, or returned
pub data Writer : Type 0 where
  waiting : Writer
  writing : Bytes → Writer
  finished : Writer

-- `readingLoop` at its select with a read under way; returned with the read still under way; or
-- returned after its last read
pub data Reader : Type 0 where
  reading left ended : Reader

pub record Proxy : Type 0 where
  pub writing_buf : Chan Bytes
  pub eol_sig : Chan Error
  pub stopped : Chan (Unit {0})
  -- close(lp.stopSigWrite), close(lp.stopSigRead), and how often lp.conn.Close() was called
  pub write_closed : Bool
  pub read_closed : Bool
  pub conn_closes : ℕ
  pub panicked : Bool
  pub reader : Reader
  pub writer : Writer
  -- writes under way that the writing loop no longer waits for
  pub left_writes : List Bytes
  -- what was handed to Send of the data channel, whatever that returned, and what was written to
  -- the connection without an error, oldest first
  pub sent : List Bytes
  pub written : List Bytes

-- NewProxy, with the EoL channel of its owner
pub new_proxy : Chan Error → Proxy
new_proxy eol_sig = record {
  writing_buf = make_chan 1024;
  eol_sig = eol_sig;
  stopped = make_chan 1;
  write_closed = false;
  read_closed = false;
  conn_closes = 0;
  panicked = false;
  reader = reading;
  writer = waiting;
  left_writes = [];
  sent = [];
  written = [];
}

-- What a caller of trySendEoL or Close gets: nil, or an error that says that it came too late.
pub data Outcome : Type 0 where
  done too_late : Outcome

abbrev sent_or_not : Chan Error → Option (Chan Error) → Chan Error × Outcome
sent_or_not c none = (c, too_late)
sent_or_not c (some c') = (c', done)

pub try_send_eol : Chan Error → Error → Chan Error × Outcome
try_send_eol c e = sent_or_not c (send c e)

-- close(lp.stopSigWrite); close(lp.stopSigRead)
abbrev close_stops : Proxy → Proxy
close_stops p = record p {
  write_closed = true;
  read_closed = true;
  panicked = p.write_closed || p.read_closed;
}

abbrev close_after : Proxy → Option (Chan (Unit {0})) → Proxy × Outcome
close_after p none = (p, too_late)
close_after p (some c) =
    (close_stops (record p { stopped = c; conn_closes = p.conn_closes + 1 }), done)

-- Close. Its sends on the stop channels make a waiting loop return; since the channels are closed
-- right after, what that loop does is to return on a closed channel.
pub close : Proxy → Proxy × Outcome
close p = close_after p (send p.stopped tt)

-- The error of one turn of the reading loop: of the send if something was read, else of the read,
-- where a closed connection or pipe counts as the end of the stream.
abbrev to_eof : Option Error → Option Error
to_eof (some net_closed) = some eof
to_eof (some closed_pipe) = some eof
to_eof e = e

pub read_error : Bytes → Option Error → Option Error → Option Error
read_error [] read_err send_err = to_eof read_err
read_error (b ∷ bs) read_err send_err = to_eof send_err

abbrev reader_after : Proxy → Chan Error × Outcome → Proxy
reader_after p (c, done) = record p { eol_sig = c }
reader_after p (c, too_late) = record p { eol_sig = c; reader = ended }

abbrev reader_turn : Proxy → Option Error → Proxy
reader_turn p none = p
reader_turn p (some e) = reader_after p (try_send_eol p.eol_sig e)

abbrev forwarded : Bytes → List Bytes → List Bytes
forwarded [] l = l
forwarded (b ∷ bs) l = l ++ (b ∷ bs) ∷ []

-- `lp.conn.Read` returns some bytes and an error; bytes go to the data channel, whose send returns
-- an error too. A read that the loop no longer waits for still forwards its bytes.
pub read_returns : Bytes → Option Error → Option Error → Proxy → Reader → Option Proxy
unfolding read_error try_send_eol
read_returns bs read_err send_err p reading =
    some (reader_turn (record p { sent = forwarded bs p.sent }) (read_error bs read_err send_err))
read_returns bs read_err send_err p left =
    some (record p { sent = forwarded bs p.sent; reader = ended })
read_returns bs read_err send_err p ended = none

-- The reading loop sees that its stop channel is closed.
pub reader_stops : Proxy → Reader → Option Proxy
reader_stops p reading = if p.read_closed then some (record p { reader = left }) else none
reader_stops p _ = none

-- OnMessage; it waits while the buffer is full.
abbrev buffered : Proxy → Option (Chan Bytes) → Option Proxy
buffered p none = none
buffered p (some c) = some (record p { writing_buf = c })

pub message : Bytes → Proxy → Option Proxy
message bs p = buffered p (send p.writing_buf bs)

abbrev taken : Proxy → Option (Bytes × Chan Bytes) → Option Proxy
taken p none = none
taken p (some (bs, c)) = some (record p { writing_buf = c; writer = writing bs })

-- The writing loop takes data from the buffer.
pub writer_takes : Proxy → Writer → Option Proxy
writer_takes p waiting = taken p (receive p.writing_buf)
writer_takes p _ = none

abbrev writer_after : Proxy → Chan Error × Outcome → Proxy
writer_after p (c, done) = record p { eol_sig = c; writer = waiting }
writer_after p (c, too_late) = record p { eol_sig = c; writer = finished }

abbrev pipe_to_eof : Error → Error
pipe_to_eof closed_pipe = eof
pipe_to_eof e = e

-- `lp.conn.Write` returns. With no error it has written all of the data.
pub write_returns : Option Error → Proxy → Writer → Option Proxy
unfolding try_send_eol
write_returns none p (writing bs) =
    some (record p { writer = waiting; written = p.written ++ bs ∷ [] })
write_returns (some e) p (writing bs) =
    some (writer_after p (try_send_eol p.eol_sig (pipe_to_eof e)))
write_returns e p _ = none

-- errors.New("failed to write to socket, timeout")
abbrev write_timeout : Error
write_timeout = other 0

-- The write is not done after 100 ms; it goes on without the loop.
pub write_times_out : Proxy → Writer → Option Proxy
unfolding try_send_eol
write_times_out p (writing bs) = some (
    writer_after (record p { left_writes = p.left_writes ++ bs ∷ [] })
      (try_send_eol p.eol_sig write_timeout))
write_times_out p _ = none

-- A write that the loop no longer waits for returns. A connection makes one write at a time.
pub left_write_returns : Option Error → Proxy → List Bytes → Option Proxy
left_write_returns e p [] = none
left_write_returns none p (bs ∷ rest) =
    some (record p { left_writes = rest; written = p.written ++ bs ∷ [] })
left_write_returns (some e) p (bs ∷ rest) = some (record p { left_writes = rest })

-- The writing loop sees that its stop channel is closed.
pub writer_stops : Proxy → Writer → Option Proxy
writer_stops p waiting = if p.write_closed then some (record p { writer = finished }) else none
writer_stops p (writing bs) =
    if p.write_closed
    then some (record p { writer = finished; left_writes = p.left_writes ++ bs ∷ [] })
    else none
writer_stops p finished = none

abbrev eol_taken : Proxy → Option (Error × Chan Error) → Option Proxy
eol_taken p none = none
eol_taken p (some (e, c)) = some (record p { eol_sig = c })

pub data Event : Type 0 where
  reads : Bytes → (read_err send_err : Option Error) → Event
  messages : Bytes → Event
  writes left_writes : Option Error → Event
  reader_stop writer_take write_timeouts writer_stop : Event
  -- the owner calls Close, or takes the EoL signal
  closes takes_eol : Event

pub step : Event → Proxy → Option Proxy
unfolding read_returns reader_stops message writer_takes write_returns write_times_out
    left_write_returns writer_stops close
step (reads bs read_err send_err) p = read_returns bs read_err send_err p p.reader
step reader_stop p = reader_stops p p.reader
step (messages bs) p = message bs p
step writer_take p = writer_takes p p.writer
step (writes e) p = write_returns e p p.writer
step write_timeouts p = write_times_out p p.writer
step (left_writes e) p = left_write_returns e p p.left_writes
step writer_stop p = writer_stops p p.writer
step closes p = some (close p).0
step takes_eol p = eol_taken p (receive p.eol_sig)

pub run : List Event → Proxy → Option Proxy
run [] p = some p
run (e ∷ es) p = elim (step e p) [ none ↦ none | some p' ↦ run es p' ]
