-- ===== src/Client/Listener/Offer.antt =====
-- client/listener.go: `initAndSendOffer` and `waitForAnswer`.
-- What gRPC, WebRTC and json.Marshal return is a parameter, `Externals`. The result of creating the
-- dummy data channel is not looked at.
mod Tests
use yamrp.Prelude.{Option, String, arith, false, if◌then◌else◌, none, refl, some, ◌↔◌, ◌≡◌}
use yamrp.Errors.{Error, eof, is_failure}

-- A session description is a D. `none` is a nil response.
pub record Externals (D : Type 0) : Type 0 where
  pub create_offer : D × Option Error
  pub set_local_description : D → Option Error
  pub marshal : D → String × Option Error
  pub send_offer : (token offer host_id : String) → Option String × Option Error
  pub wait_for_answer : (token answerer_id : String) → Option String × Option Error
  pub set_remote_description : (answer : String) → Option Error

-- What initAndSendOffer returns; reading the identifier of a nil response panics.
pub data Offered : Type 0 where
  fails : Option Error → Offered
  panics : Offered
  sent : (answerer_id : String) → Offered

-- if err != nil && err != io.EOF
abbrev unless_failure : Option Error → Offered → Offered
unless_failure err rest = if is_failure err then fails err else rest

-- if err != nil
abbrev unless_error : Option Error → Offered → Offered
unless_error none rest = rest
unless_error (some e) rest = fails (some e)

abbrev answerer_of : Option String → Offered
answerer_of none = panics
answerer_of (some answerer_id) = sent answerer_id

-- How the goroutine of waitForAnswer ends.
pub data Answered : Type 0 where
  nil_answer : Answered
  resolves : Option Error → Answered

-- The goroutine of waitForAnswer on what the server returned
abbrev answered_by : (String → Option Error) → Option String × Option Error → Answered
answered_by set_remote (ret, some e) = resolves (some e)
answered_by set_remote (none, none) = nil_answer
answered_by set_remote (some answer, none) = resolves (set_remote answer)

answered_by-resolves :
    (set_remote : String → Option Error) (r : Option String × Option Error)
    → (answered_by set_remote r ≡ resolves none)
      ↔ ((answer : String) × (r ≡ (some answer, none)) × (set_remote answer ≡ none))
answered_by-resolves set_remote (ret, some e) = (λ h. cc, λ h. cc)
answered_by-resolves set_remote (none, none) = (λ h. cc, λ h. cc)
answered_by-resolves set_remote (some answer, none) = (λ h. (answer, refl, cc), λ h. cc)

module _ {D : Type 0} (ext : Externals D) (token : String) where
  pub init_and_send_offer : (host_id : String) → Offered
  init_and_send_offer host_id =
      let (sdp, offer_err) = ext.create_offer in
      let (payload, marshal_err) = ext.marshal sdp in
      let (res, send_err) = ext.send_offer token payload host_id in
      unless_failure offer_err (
        unless_error (ext.set_local_description sdp)
          (unless_error marshal_err (unless_failure send_err (answerer_of res))))

  pub wait_for_answer : (answerer_id : String) → Answered
  wait_for_answer answerer_id =
      answered_by ext.set_remote_description (ext.wait_for_answer token answerer_id)

  abbrev payload : String
  payload = (ext.marshal ext.create_offer.0).0

  -- The offer is on its way as far as the server: it was created, set and written.
  abbrev pub IsReady : Type 0
  IsReady =
      (is_failure ext.create_offer.1 ≡ false)
      × (ext.set_local_description ext.create_offer.0 ≡ none)
      × ((ext.marshal ext.create_offer.0).1 ≡ none)

  -- initAndSendOffer returns an identifier if and only if the offer was created, set as the local
  -- description and written, and the server answered that offer, sent for this host, with that
  -- identifier and with no error but io.EOF.
  pub init_and_send_offer-sent :
      (host_id answerer_id : String)
      → (init_and_send_offer host_id ≡ sent answerer_id) ↔ (
          IsReady
          × (is_failure (ext.send_offer token payload host_id).1 ≡ false)
          × ((ext.send_offer token payload host_id).0 ≡ some answerer_id))
  unfolding init_and_send_offer
  init_and_send_offer-sent host_id answerer_id = (λ h. ground arith, λ h. ground arith)

  -- If the offer was created, set and written and SendOffer returns io.EOF with no response,
  -- initAndSendOffer panics.
  init_and_send_offer-panics :
      (host_id : String)
      → IsReady
      → ext.send_offer token payload host_id ≡ (none, some eof)
      → init_and_send_offer host_id ≡ panics
  unfolding init_and_send_offer
  init_and_send_offer-panics host_id ready closed = ground arith

  -- waitForAnswer resolves with nil if and only if the server returned an answer without an error
  -- and that answer was set as the remote description without an error.
  wait_for_answer-resolves :
      (answerer_id : String)
      → (wait_for_answer answerer_id ≡ resolves none) ↔ (
          (answer : String) × (ext.wait_for_answer token answerer_id ≡ (some answer, none))
          × (ext.set_remote_description answer ≡ none))
  unfolding wait_for_answer
  wait_for_answer-resolves answerer_id =
      answered_by-resolves ext.set_remote_description (ext.wait_for_answer token answerer_id)
