-- ===== src/Server/Answerer/Answers.antt =====
-- Where the answers that the service sends to the offerer service come from: from its calls of
-- SendAnswer, for any property of answers that these have.
use yamrp.Prelude.{subst, update_all, ℕ}
use yamrp.Server.Packets.{AnsPacket}
use yamrp.Server.Answerer.{Thread, answer_response, answering, returned}
use yamrp.Server.Answerer.Threads.{IsQuiet, KeepsCalls}

module _ (R : AnsPacket → Type 0) where
  abbrev HasAnswer : Thread → Type 0
  HasAnswer (answering p) = R p
  HasAnswer _ = Unit

  abbrev pub Holding : (ℕ → Thread) → ℕ → Type 0
  Holding f n = (j : ℕ) → HasAnswer (f j)

  abbrev pub HasSent : AnsPacket → (ℕ → Thread) → ℕ → Type 0
  HasSent p f n = R p × Holding f n

  quiet-HasAnswer : (t : Thread) → IsQuiet t → HasAnswer t
  quiet-HasAnswer (answering p) q = absurd q
  quiet-HasAnswer _ q = tt

  pub Holding-KeepsCalls : KeepsCalls Holding HasSent R
  Holding-KeepsCalls = record {
    puts = λ f n i t q v. update_all HasAnswer f i t v (quiet-HasAnswer t q);
    adds = λ f n t q v. update_all HasAnswer f n t v (quiet-HasAnswer t q);
    calls = λ f n p h v. update_all HasAnswer f n (answering p) v h;
    sends = λ f n i p e v.
        (subst HasAnswer e (v i), update_all HasAnswer f i (returned answer_response) v tt);
  }
