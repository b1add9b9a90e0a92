-- ===== src/Server/Answerer/Counts.antt =====
-- How many answers the calls of SendAnswer have still to send, for any weight of answers.
use yamrp.Prelude.{
  Bool-cases, ap, arith, inl, inr, ltb, refl, suc, update, zero, ℕ, ◌+◌, ◌<◌, ◌==◌, ◌≡◌, ◌≤◌,
}
use yamrp.Server.Packets.{AnsPacket}
use yamrp.Server.Answerer.{
  AnswererServer, Thread, answer_response, answering, new_answerer_server, returned, sends_answer,
  step,
}
use yamrp.Server.Answerer.Threads.{Gives, IsQuiet, KeepsCalls}

module _ (w : AnsPacket → ℕ) where
  abbrev held : Thread → ℕ
  held (answering p) = w p
  held _ = 0

  -- What the first goroutines hold.
  abbrev pub pending : (ℕ → Thread) → ℕ → ℕ
  pending f zero = 0
  pending f (suc n) = held (f n) + pending f n

  -- No goroutine that is still to be made holds an answer.
  abbrev Fresh : (ℕ → Thread) → ℕ → Type 0
  Fresh f n = (j : ℕ) → n ≤ j → held (f j) ≡ 0

  abbrev pub Bounded : ℕ → (ℕ → Thread) → ℕ → Type 0
  Bounded b f n = Fresh f n × (pending f n ≤ b)

  -- After an answer has been sent.
  abbrev pub SentBounded : ℕ → AnsPacket → (ℕ → Thread) → ℕ → Type 0
  SentBounded b p f n = Fresh f n × (w p + pending f n ≤ b)

  pending_above :
      (f : ℕ → Thread) (i : ℕ) (t : Thread) (n : ℕ) → n ≤ i → pending (update f i t) n ≡ pending f n
  pending_above f i t zero h = refl
  pending_above f i t (suc n) h = ground (arith, pending_above f i t n (omega (arith, h)))

  pending_below :
      (f : ℕ → Thread) (i : ℕ) (t : Thread) (n : ℕ)
      → i < n
      → pending (update f i t) n + held (f i) ≡ pending f n + held t
  pending_below f i t zero h = absurd (omega (arith, h))
  pending_below f i t (suc n) h = elim (Bool-cases (i == n)) [
    | inl e ↦
        let same : i ≡ n = ground (arith, e) in
        let above = pending_above f i t n (omega (arith, same)) in
        rw e (omega (arith, above, ap (λ x. held (f x)) same))
    | inr e ↦
        let below : i < n = ground (arith, h, e) in
        rw e (omega (arith, pending_below f i t n below))
  ]

  quiet-held : (t : Thread) → IsQuiet t → held t ≡ 0
  quiet-held (answering p) q = absurd q
  quiet-held _ q = refl

  put-Fresh :
      (f : ℕ → Thread) (n i : ℕ) (t : Thread) → held t ≡ 0 → Fresh f n → Fresh (update f i t) n
  put-Fresh f n i t q v j h = ground (arith, v j h, q)

  -- What a goroutine gives up is no longer pending.
  put-pending :
      (f : ℕ → Thread) (n i : ℕ) (t : Thread)
      → held t ≡ 0
      → Fresh f n
      → held (f i) + pending (update f i t) n ≤ pending f n
  put-pending f n i t q v = elim (Bool-cases (ltb i n)) [
    | inl e ↦ omega (arith, pending_below f i t n (ground (arith, e)), q)
    | inr e ↦ omega (arith, pending_above f i t n (ground (arith, e)), v i (ground (arith, e)))
  ]

  put-Bounded :
      (b : ℕ) (f : ℕ → Thread) (n i : ℕ) (t : Thread)
      → held t ≡ 0
      → Bounded b f n
      → Bounded b (update f i t) n
  put-Bounded b f n i t q v =
      (put-Fresh f n i t q v.0, omega (arith, put-pending f n i t q v.0, v.1))

  update_same : (f : ℕ → Thread) (n : ℕ) (t : Thread) → update f n t n ≡ t
  update_same f n t = ground arith

  add-Bounded :
      (b : ℕ) (f : ℕ → Thread) (n : ℕ) (t : Thread)
      → Bounded b f n
      → Bounded (held t + b) (update f n t) (suc n)
  add-Bounded b f n t v = (
    λ j h. ground (arith, v.0 j (omega (arith, h)), h),
    omega (arith, pending_above f n t n (omega arith), ap held (update_same f n t), v.1),
  )

  pub Bounded-KeepsCalls : (b : ℕ) → KeepsCalls (Bounded b) (SentBounded b) (λ p. ⊥)
  Bounded-KeepsCalls b = record {
    puts = λ f n i t q v. put-Bounded b f n i t (quiet-held t q) v;
    adds = λ f n t q v.
        let added = add-Bounded b f n t v in (added.0, omega (arith, added.1, quiet-held t q));
    calls = λ f n p q v. absurd q;
    sends = λ f n i p e v. (
      put-Fresh f n i (returned answer_response) refl v.0,
      omega (arith, put-pending f n i (returned answer_response) refl v.0, ap held e, v.1),
    );
  }

  -- A call of SendAnswer brings its answer.
  pub call-Gives :
      (b : ℕ) (p : AnsPacket) (s : AnswererServer)
      → Bounded b s.threads s.spawned
      → Gives (Bounded (w p + b)) (SentBounded (w p + b)) (step (sends_answer p) s)
  unfolding step
  call-Gives b p s v = add-Bounded b s.threads s.spawned (answering p) v

  pub new_answerer_server-Bounded :
      Bounded 0 new_answerer_server.threads new_answerer_server.spawned
  unfolding new_answerer_server
  new_answerer_server-Bounded = ((λ j h. refl), omega arith)
