-- ===== src/Server/Serving/Bounds.antt =====
-- How often an answer reaches a call of WaitForAnswer.
use yamrp.Prelude.{
  Bool, List, [], ap, arith, if◌then◌else◌, none, refl, some, subst, ℕ, ◌++◌, ◌+◌, ◌∷◌, ◌≡◌, ◌≤◌,
}
use yamrp.Server.Packets.{AnsPacket}
use yamrp.Schedules.{Ensures, collect, run, run_cons, total}
use yamrp.Server.Serving.{Event, Server, new_server, next, step}
use yamrp.Server.Offerer.{new_offerer_server}
use yamrp.Server.Serving.Frames.{taken}
use yamrp.Server.Offerer.Counts.{in_router}
use yamrp.Server.Answerer.Counts.{new_answerer_server-Bounded}
use yamrp.Server.Serving.Counts.{Fits, given, next-Fits, sent_by, total-append}

-- All answers that calls of WaitForAnswer are given in the course of a schedule.
abbrev pub deliveries : List Event → Server → List AnsPacket
deliveries [] s = []
deliveries (e ∷ es) s = given e s ++ elim (step e s) [ none ↦ [] | some (t, out) ↦ deliveries es t ]

deliveries_next :
    (e : Event) (es : List Event) (s : Server) {t : Server} {out : Unit {0}}
    → step e s ≡ some (t, out)
    → deliveries (e ∷ es) s ≡ given e s ++ deliveries es t
deliveries_next e es s taken = rw taken refl

-- How many of them pass a test.
abbrev pub count : (AnsPacket → Bool) → List AnsPacket → ℕ
count test = total (λ p. if test p then 1 else 0)

module _ (w : AnsPacket → ℕ) where
  step-Fits :
      (e : Event) (s : Server) (b : ℕ)
      → Fits w (sent_by e) b s
      → Ensures (Fits w (given e s) b) (step e s)
  unfolding step
  step-Fits e s b v = taken (Fits w (given e s) b) s.host.panicked (next e s) (next-Fits w e s b v)

  deliveries-total :
      (es : List Event) (s : Server) (b : ℕ) {t : Server}
      → Fits w [] b s
      → run step es s ≡ some t
      → total w (deliveries es s) ≤ b + total w (collect sent_by es)
  deliveries-total [] s b v ran = omega arith
  deliveries-total (e ∷ es) s b (m, v, h) ran =
      let (s', out, taken, rest) = run_cons step e es s ran in
      let brought : Fits w (sent_by e) (total w (sent_by e) + b) s = (m, v, omega (arith, h)) in
      let (m', v', h') =
        subst (Ensures (Fits w (given e s) (total w (sent_by e) + b))) taken
          (step-Fits e s (total w (sent_by e) + b) brought) in
      let left = total w (in_router s'.offerer.ans_router) + (total w s'.answer_ch.queue + m') in
      let later = deliveries-total es s' left (m', v', omega arith) rest in
      let goes_on = ap (total w) (deliveries_next e es s taken) in
      omega (
        arith,
        goes_on,
        total-append w (given e s) (deliveries es s'),
        total-append w (sent_by e) (collect sent_by es),
        h',
        later,
      )

  pub new_server-Fits : Fits w [] 0 new_server
  unfolding new_server new_offerer_server
  new_server-Fits = (0, new_answerer_server-Bounded w, omega arith)

-- Whatever happens to a new server, of the answers that pass any test, calls of WaitForAnswer are
-- given at most as many as calls of SendAnswer have brought.
pub deliveries_bounded :
    (wanted : AnsPacket → Bool) (es : List Event) {s : Server}
    → run step es new_server ≡ some s
    → count wanted (deliveries es new_server) ≤ count wanted (collect sent_by es)
deliveries_bounded wanted es ran =
    let w : AnsPacket → ℕ = λ p. if wanted p then 1 else 0 in
    omega (arith, deliveries-total w es new_server 0 (new_server-Fits w) ran)
