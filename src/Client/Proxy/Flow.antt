-- ===== src/Client/Proxy/Flow.antt =====
-- Data go through a proxy in order, and none is lost on a connection that works.
use mathlib.Core.List.{append_assoc, append-nil}
use yamrp.Prelude.{All, List, [], arith, none, refl, some, ◌++◌, ◌∙◌, ◌∷◌, ◌≡◌}
use yamrp.Errors.{Error}
use yamrp.Chan.{Chan, receive, send}
use yamrp.Client.Proxy.{
  Bytes, Event, Proxy, Writer, closes, left_writes, messages, new_proxy, reader_stop, reads, run,
  step, taken, takes_eol, write_returns, write_timeouts, writer_stop, writer_take, writes, writing,
}
use yamrp.Client.Proxy.Runs.{run_cons}

-- What the reads of a schedule returned, oldest first, without empty reads.
abbrev pub read_data : List Event → List Bytes
read_data [] = []
read_data (reads [] re se ∷ es) = read_data es
read_data (reads (b ∷ bs) re se ∷ es) = (b ∷ bs) ∷ read_data es
read_data (_ ∷ es) = read_data es

-- What the data channel delivered in a schedule, oldest first.
abbrev pub delivered : List Event → List Bytes
delivered [] = []
delivered (messages bs ∷ es) = bs ∷ delivered es
delivered (_ ∷ es) = delivered es

-- No write fails, comes late, or is given up because the proxy was closed.
abbrev pub Works : Event → Type 0
Works (writes (some e)) = ⊥
Works write_timeouts = ⊥
Works writer_stop = ⊥
Works _ = Unit

abbrev pub in_write : Writer → List Bytes
in_write (writing bs) = bs ∷ []
in_write _ = []

-- Everything that has been delivered and what has become of it, oldest first.
abbrev pub accepted : Proxy → List Bytes
accepted p = p.written ++ (in_write p.writer ++ p.writing_buf.queue)

step-sent :
    (e : Event) (es : List Event) (p p' : Proxy)
    → step e p ≡ some p'
    → p'.sent ++ read_data es ≡ p.sent ++ read_data (e ∷ es)
unfolding step send receive
step-sent (reads [] re se) es p p' h = ground arith
step-sent (reads (b ∷ bs) re se) es p p' h =
    ground (arith, append_assoc p.sent ((b ∷ bs) ∷ []) (read_data es))
step-sent (messages bs) es p p' h = ground arith
step-sent (writes e) es p p' h = ground arith
step-sent (left_writes e) es p p' h = ground arith
step-sent reader_stop es p p' h = ground arith
step-sent writer_take es p p' h = ground arith
step-sent write_timeouts es p p' h = ground arith
step-sent writer_stop es p p' h = ground arith
step-sent closes es p p' h = ground arith
step-sent takes_eol es p p' h = ground arith

regroup :
    (w f q d : List Bytes) (bs : Bytes)
    → (w ++ (f ++ (q ++ bs ∷ []))) ++ d ≡ (w ++ (f ++ q)) ++ bs ∷ d
regroup w f q d bs = simp append_assoc

written_lem :
    (p : Proxy) (w : Writer) (p' : Proxy)
    → p.writer ≡ w
    → write_returns none p w ≡ some p'
    → (accepted p' ≡ accepted p) × (p'.left_writes ≡ p.left_writes)
unfolding write_returns
written_lem p (writing bs) p' e h =
    ground (arith, append_assoc p.written (bs ∷ []) p.writing_buf.queue)
written_lem p _ p' e h = cc

step-accepted :
    (e : Event) (es : List Event) (p p' : Proxy)
    → Works e
    → p.left_writes ≡ []
    → step e p ≡ some p'
    → (accepted p' ++ delivered es ≡ accepted p ++ delivered (e ∷ es)) × (p'.left_writes ≡ [])
unfolding step send receive
step-accepted (reads bs re se) es p p' w l h = ground arith
step-accepted (messages bs) es p p' w l h =
    ground (arith, regroup p.written (in_write p.writer) p.writing_buf.queue (delivered es) bs)
step-accepted (writes none) es p p' w l h = ground (arith, written_lem p p.writer p' refl h)
step-accepted (writes (some e)) es p p' w l h = elim w [ ]
step-accepted (left_writes e) es p p' w l h = ground arith
step-accepted reader_stop es p p' w l h = ground arith
step-accepted writer_take es p p' w l h = ground arith
step-accepted write_timeouts es p p' w l h = elim w [ ]
step-accepted writer_stop es p p' w l h = elim w [ ]
step-accepted closes es p p' w l h = ground arith
step-accepted takes_eol es p p' w l h = ground arith

run-sent :
    (es : List Event) (p : Proxy) {q : Proxy} → run es p ≡ some q → q.sent ≡ p.sent ++ read_data es
unfolding run
run-sent [] p h = ground (arith, append-nil p.sent)
run-sent (e ∷ es) p h =
    let (p', taken, rest) = run_cons e es p h in run-sent es p' rest ∙ step-sent e es p p' taken

run-accepted :
    (es : List Event) (p : Proxy) {q : Proxy}
    → All Works es
    → p.left_writes ≡ []
    → run es p ≡ some q
    → accepted q ≡ accepted p ++ delivered es
unfolding run
run-accepted [] p w l h = ground (arith, append-nil (accepted p))
run-accepted (e ∷ es) p w l h =
    let (p', taken, rest) = run_cons e es p h in
    let (same, still) = step-accepted e es p p' w.0 l taken in
    run-accepted es p' w.1 still rest ∙ same

-- Over any schedule, the data channel was sent exactly the data that the reads returned, in their
-- order, whether or not a read also returned an error and whether or not the proxy was closed.
pub sent_in_order :
    (c : Chan Error) (es : List Event) {p : Proxy}
    → run es (new_proxy c) ≡ some p
    → p.sent ≡ read_data es
unfolding new_proxy
sent_in_order c es ran = run-sent es _ ran

-- Over any schedule in which no write fails or comes late and the writing loop does not stop, what
-- was written, then what is being written, then what waits in the buffer is exactly what the data
-- channel delivered, in the order of delivery.
pub delivered_in_order :
    (c : Chan Error) (es : List Event) {p : Proxy}
    → All Works es
    → run es (new_proxy c) ≡ some p
    → p.written ++ (in_write p.writer ++ p.writing_buf.queue) ≡ delivered es
unfolding new_proxy
delivered_in_order c es works ran = run-accepted es _ works refl ran
