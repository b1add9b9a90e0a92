-- ===== src/Client/Agent/Answers.antt =====
-- initWebRTCAsAnswerer up to its last send.
-- An ending by an error holds a failure.
use yamrp.Prelude.{
  List, Option, String, [], ap, arith, if◌then◌else◌, none, refl, some, true, ◌∙◌, ◌∷◌, ◌≡◌,
}
use yamrp.Errors.{Error, canceled, closed_pipe, eof, is_failure, net_closed, other, status}
use yamrp.Client.Agent.{
  Action, Ending, Externals, Trace, WaitForOfferResponse, act, answer_offer, answered, checked,
  ends, fails, init_webrtc_as_answerer, non_nil, panics, sends_answer,
}

record Sound {P D : Type 0} (t : Trace P D) : Type 0 where
  holds : (err : Option Error) → t.ending ≡ fails err → is_failure err ≡ true

error_of : {P : Type 0} → Ending P → Option Error
error_of (fails err) = err
error_of _ = none

module _ {P D : Type 0} where
  checked-Sound : (e : Option Error) {t : Trace P D} → Sound t → Sound (checked e t)
  unfolding checked ends
  checked-Sound e {t = t} t-Sound = record { holds = λ err h. ground (arith, t-Sound.holds err) }

  act-Sound : (a : Action D) {t : Trace P D} → Sound t → Sound (act a t)
  unfolding act
  act-Sound a t-Sound = record { holds = t-Sound.holds }

  answered-Sound : (e : Option Error) (p : P) → Sound {D = D} (ends (answered e p))
  unfolding ends
  answered-Sound e p = record { holds = λ err h. cc }

  non_nil-Sound {ℓ} :
      {A : Type ℓ} (o : Option A) {k : A → Trace P D}
      → ((a : A) → Sound (k a))
      → Sound (non_nil o k)
  unfolding non_nil ends
  non_nil-Sound none k-Sound = record { holds = λ err h. cc }
  non_nil-Sound (some a) k-Sound = k-Sound a

-- The first of the errors that is one, and not io.EOF.
abbrev pub first_failure : List (Option Error) → Option Error
first_failure [] = none
first_failure (e ∷ es) = if is_failure e then e else first_failure es

-- A call of SendAnswer
pub record Sent : Type 0 where
  pub token : String
  pub body : String
  pub answerer_id : String

abbrev pub answers_sent : {D : Type 0} → List (Action D) → List Sent
answers_sent [] = []
answers_sent (sends_answer token body answerer_id ∷ rest) =
    record { token = token; body = body; answerer_id = answerer_id } ∷ answers_sent rest
answers_sent (_ ∷ rest) = answers_sent rest

-- A failure, or what happens without one
abbrev pub or_else : {P : Type 0} → Option Error → Ending P × List Sent → Ending P × List Sent
or_else none o = o
or_else (some e) o = (fails (some e), [])

module _ {P D : Type 0} where
  abbrev pub summary : Trace P D → Ending P × List Sent
  summary t = (t.ending, answers_sent t.actions)

  checked_lem :
      (e : Option Error) (es : List (Option Error)) (t : Trace P D) (o : Ending P × List Sent)
      → summary t ≡ or_else (first_failure es) o
      → summary (checked e t) ≡ or_else (first_failure (e ∷ es)) o
  unfolding checked ends
  checked_lem none es t o h = h
  checked_lem (some eof) es t o h = h
  checked_lem (some closed_pipe) es t o h = refl
  checked_lem (some net_closed) es t o h = refl
  checked_lem (some canceled) es t o h = refl
  checked_lem (some (status c)) es t o h = refl
  checked_lem (some (other n)) es t o h = refl

module _ {P D : Type 0} (ext : Externals P D) (token host_id : String) where
  abbrev pub ending : Ending P
  ending = (init_webrtc_as_answerer ext token host_id).ending

  answer_offer-Sound :
      (p : P) (ret : WaitForOfferResponse) → Sound (answer_offer ext token host_id p ret)
  unfolding answer_offer
  answer_offer-Sound p ret = checked-Sound _ (
      act-Sound _ (
        act-Sound _ (
          checked-Sound _ (
            act-Sound _ (
              checked-Sound _
                (act-Sound _ (checked-Sound _ (act-Sound _ (answered-Sound _ _)))))))))

  init_webrtc_as_answerer-Sound : Sound (init_webrtc_as_answerer ext token host_id)
  unfolding init_webrtc_as_answerer
  init_webrtc_as_answerer-Sound = act-Sound _ (
      checked-Sound _ (
        act-Sound _ (
          checked-Sound _ (
            non_nil-Sound _ λ offer. act-Sound _ (
              act-Sound _ (
                checked-Sound _
                  (non_nil-Sound _ λ p. act-Sound _ (answer_offer-Sound p offer))))))))

  pub fails-is_failure : (err : Option Error) → ending ≡ fails err → is_failure err ≡ true
  fails-is_failure = init_webrtc_as_answerer-Sound.holds

  -- What the calls before SendAnswer return for errors, in their order. Without a response to
  -- WaitForOffer, or without a connection, the calls after that cannot be made.
  abbrev connection_errors : P → WaitForOfferResponse → List (Option Error)
  connection_errors p ret =
      (ext.unmarshal ret.body).1
      ∷ ext.set_remote_description p (ext.unmarshal ret.body).0
      ∷ (ext.create_answer p).1
      ∷ ext.set_local_description p (ext.create_answer p).0
      ∷ []

  abbrev errors_with : Option P → Option WaitForOfferResponse → List (Option Error)
  errors_with peer_conn none = []
  errors_with none (some ret) = ext.send_ice_candidate ∷ []
  errors_with (some p) (some ret) = ext.send_ice_candidate ∷ connection_errors p ret

  abbrev pub call_errors : List (Option Error)
  call_errors =
      ext.new_peer_connection.1
      ∷ (ext.wait_for_offer token host_id).1
      ∷ errors_with ext.new_peer_connection.0 (ext.wait_for_offer token host_id).0

  -- SendAnswer gets the description that was set locally and the answerer of the offer.
  abbrev answer_of : P → WaitForOfferResponse → Sent
  answer_of p ret = record {
    token = token;
    body = ext.sdp (ext.create_answer p).0;
    answerer_id = ret.answerer_id;
  }

  abbrev without_failure : Option P → Option WaitForOfferResponse → Ending P × List Sent
  without_failure peer_conn none = (panics, [])
  without_failure none (some ret) = (panics, [])
  without_failure (some p) (some ret) = (
    answered (ext.send_answer token (ext.sdp (ext.create_answer p).0) ret.answerer_id) p,
    answer_of p ret ∷ [],
  )

  -- The first failure of a call decides. Without one, a missing response or connection does.
  abbrev pub outcome : Ending P × List Sent
  outcome =
      or_else (first_failure call_errors)
        (without_failure ext.new_peer_connection.0 (ext.wait_for_offer token host_id).0)

  answer_offer_lem :
      (p : P) (ret : WaitForOfferResponse)
      → summary (answer_offer ext token host_id p ret)
        ≡ or_else (first_failure (connection_errors p ret)) (without_failure (some p) (some ret))
  unfolding answer_offer act ends
  answer_offer_lem p ret =
      let o = without_failure (some p) (some ret) in
      let set_err = ext.set_local_description p (ext.create_answer p).0 in
      let answer_err = (ext.create_answer p).1 in
      let remote_err = ext.set_remote_description p (ext.unmarshal ret.body).0 in
      checked_lem (ext.unmarshal ret.body).1 (remote_err ∷ answer_err ∷ set_err ∷ []) _ o (
        checked_lem remote_err (answer_err ∷ set_err ∷ []) _ o
          (checked_lem answer_err (set_err ∷ []) _ o (checked_lem set_err [] _ o refl)))

  answers_or_fails_with :
      (peer_conn : Option P) (ret : Option WaitForOfferResponse)
      → ext.new_peer_connection.0 ≡ peer_conn
      → (ext.wait_for_offer token host_id).0 ≡ ret
      → summary (init_webrtc_as_answerer ext token host_id)
        ≡ or_else
            (first_failure (
              ext.new_peer_connection.1
              ∷ (ext.wait_for_offer token host_id).1
              ∷ errors_with peer_conn ret))
            (without_failure peer_conn ret)
  unfolding init_webrtc_as_answerer act non_nil ends
  answers_or_fails_with peer_conn none e f =
      checked_lem ext.new_peer_connection.1 ((ext.wait_for_offer token host_id).1 ∷ []) _
        (panics, [])
        (checked_lem (ext.wait_for_offer token host_id).1 [] _ (panics, []) (rw f refl))
  answers_or_fails_with none (some ret) e f =
      checked_lem ext.new_peer_connection.1
        ((ext.wait_for_offer token host_id).1 ∷ ext.send_ice_candidate ∷ []) _ (panics, [])
        (checked_lem (ext.wait_for_offer token host_id).1 (ext.send_ice_candidate ∷ []) _
          (panics, []) (rw f (checked_lem ext.send_ice_candidate [] _ (panics, []) (rw e refl))))
  answers_or_fails_with (some p) (some ret) e f =
      let o = without_failure (some p) (some ret) in
      let es = connection_errors p ret in
      checked_lem ext.new_peer_connection.1
        ((ext.wait_for_offer token host_id).1 ∷ ext.send_ice_candidate ∷ es) _ o
        (checked_lem (ext.wait_for_offer token host_id).1 (ext.send_ice_candidate ∷ es) _ o
          (rw f (checked_lem ext.send_ice_candidate es _ o (rw e (answer_offer_lem p ret)))))

  -- Whatever the calls return, in a run in which no candidate is sent: if one of the calls before
  -- SendAnswer fails, the first that does so is the error with which initWebRTCAsAnswerer ends, and
  -- SendAnswer is not called. If none fails, and there is no response or no connection, it panics.
  -- Otherwise SendAnswer is called once, for the answerer of the offer and with the description that
  -- was set locally, and what it returned is what the last send goes with.
  pub answers_or_fails : summary (init_webrtc_as_answerer ext token host_id) ≡ outcome
  answers_or_fails =
      answers_or_fails_with ext.new_peer_connection.0 (ext.wait_for_offer token host_id).0 refl refl

  -- A first failure is the ending.
  pub first_failure-ending :
      (e : Error) → first_failure call_errors ≡ some e → ending ≡ fails (some e)
  first_failure-ending e h =
      let rest = without_failure ext.new_peer_connection.0 (ext.wait_for_offer token host_id).0 in
      ap (λ x. x.0) (answers_or_fails ∙ ap (λ x. or_else x rest) h)
