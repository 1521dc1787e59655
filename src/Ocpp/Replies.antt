-- ===== src/Ocpp/Replies.antt =====
-- What the calls of a charger are answered with in givEVC-ocppv2/app/ocpp/charge_point.py.
use giv_evc_ocppv.Base.{
  Bool, false, Option, none, some, List, [], ◌∷◌, ◌≡◌, refl, ap, sym, ◌∙◌, ◌⊎◌, inl, inr,
  Bool-cases,
}
use giv_evc_ocppv.Ocpp.Session.{
  End, raised_after, returned, Element, number, string, plain, nested, array, Session, Action,
  Report, Outbound, call_result, call_error, ErrorCode, not_implemented, internal_error, Handled,
  handler_for, handle_action, handle_inbound_call, handle_text_message, answered, is_truthy,
  or_drawn, send_call_error,
}
use giv_evc_ocppv.Accounts.Rows.{map_option}
use giv_evc_ocppv.Ocpp.Answers.{answered-session}

-- The identifier that a frame of the session carries.
unfoldable pub identifier_of : Outbound → Option Element
identifier_of (call_result id reply) = some id
identifier_of (call_error id code) = id

-- The identifier of the call, or one drawn at random, in an error, where the call's counts as false.
abbrev pub Names : Element → Outbound → Type 0
Names id out = (identifier_of out ≡ some id) ⊎ ((identifier_of out ≡ none) × (is_truthy id ≡ false))

call_error-Names :
    (id : Element) (code : ErrorCode) → Names id (call_error (or_drawn (some id)) code)
unfolding identifier_of or_drawn
call_error-Names id code = elim (Bool-cases (is_truthy id)) [
  | inl given ↦ rw given (inl refl)
  | inr drawn ↦ rw drawn (inr (refl, refl))
]

-- One frame that answers the call with an identifier.
abbrev pub Answers : Element → List Outbound → Type 0
Answers id sent = (out : Outbound) × (sent ≡ out ∷ []) × Names id out

handle_action-one :
    (id : Element) (stateful : Bool) (end : End) (action : Option Action)
    → Answers id (handle_action id stateful end action).0
unfolding handle_action send_call_error identifier_of
handle_action-one id stateful end none = (_, refl, call_error-Names id not_implemented)
handle_action-one id stateful (raised_after n) (some action) =
    (_, refl, call_error-Names id internal_error)
handle_action-one id stateful (returned identifier) (some action) = (_, refl, inl refl)

answered-Answers :
    (id : Element) (s : Session) (done : List Outbound × List Report) {handled : Handled}
    → Answers id done.0
    → answered s (some done) ≡ some handled
    → Answers id handled.sent
answered-Answers id s (sent, reported) {handled} (out, one, same) h =
    let equal : some sent ≡ some handled.sent = ap (map_option (λ (x : Handled). x.sent)) h in
    let frames : sent ≡ handled.sent = cc in (out, sym frames ∙ one, same)

handle_action-Answers :
    (id : Element) (end : End) (action : Option Action) (s : Session) {handled : Handled}
    → answered s (some (handle_action id s.stateful end action)) ≡ some handled
    → Answers id handled.sent × (handled.session ≡ s)
handle_action-Answers id end action s h =
    let done = handle_action id s.stateful end action in
    (
      answered-Answers id s done (handle_action-one id s.stateful end action) h,
      answered-session s (some done) h,
    )

-- A call of the charger that does not end the session is answered with one frame, however the handler
-- ends: a result with the identifier of the call, or an error with it, or with one drawn at random where
-- the identifier counts as false. The session is as before.
pub handle_text_message-Answers :
    (id action payload : Element) (end : End) (s : Session) {handled : Handled}
    → handle_text_message (array (number 2 ∷ id ∷ action ∷ payload ∷ [])) end s ≡ some handled
    → Answers id handled.sent × (handled.session ≡ s)
unfolding handle_text_message handle_inbound_call
handle_text_message-Answers id (string name) payload end s h =
    handle_action-Answers id end (handler_for name) s h
handle_text_message-Answers id (number n) payload end s h = handle_action-Answers id end none s h
handle_text_message-Answers id (plain text) payload end s h = handle_action-Answers id end none s h
handle_text_message-Answers id (nested text) payload end s h = cc
