-- ===== src/Client/Listener/Exchange/Tests.antt =====
-- Runs of exchangeICE.
use yamrp.Prelude.{List, Option, [], none, refl, some, true, ◌++◌, ◌∷◌, ◌≡◌}
use yamrp.Errors.{eof}
use yamrp.Schedules.{collect, run}
use yamrp.Client.Listener.Exchange.{
  Event, Exchange, checks, checks_again, connects, ctx_ends, gathers, loop_ends, loop_sends,
  new_exchange, opens, reader_sends, recv, step,
}
use yamrp.Client.Listener.Exchange.Closing.{close_before_send_panics}
use yamrp.Client.Listener.Exchange.Order.{
  gathered_by, hand, local_in_order, received_by, remote_in_order,
}

abbrev reached : Option Exchange → Exchange
reached none = new_exchange
reached (some x) = x

abbrev exchanged : List Event
exchanged =
    connects none
    ∷ opens none
    ∷ gathers "l"
    ∷ checks
    ∷ recv "r" none
    ∷ loop_sends (some eof)
    ∷ checks_again
    ∷ []

abbrev holding : Exchange
holding = reached (run step exchanged new_exchange)

local_in_order_example : holding.sent ++ holding.pending.queue ≡ collect gathered_by exchanged
unfolding run step new_exchange
local_in_order_example = local_in_order exchanged {x = holding} refl

remote_in_order_example :
    holding.added ++ (holding.remote.queue ++ hand holding.reader) ≡ collect received_by exchanged
unfolding run step new_exchange
remote_in_order_example = remote_in_order exchanged {x = holding} refl (λ e. cc)

abbrev closing : List Event
closing = ctx_ends ∷ loop_ends ∷ reader_sends ∷ []

close_before_send_panics_example :
    (t : Exchange) × (run step closing holding ≡ some t) × (t.panicked ≡ true)
unfolding run step new_exchange
close_before_send_panics_example = close_before_send_panics "r" holding refl refl refl
