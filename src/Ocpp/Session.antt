-- ===== src/Ocpp/Session.antt =====
-- The session of a connected charger, `ChargePointSession` of givEVC-ocppv2/app/ocpp/charge_point.py.
-- A payload is the text of its JSON, as `json.dumps` writes it.
use giv_evc_ocppv.Base.{
  ℕ, not, ◌||◌, ◌++◌, zero, suc, Bool, true, false, Option, none, some, List, [], ◌∷◌,
  if◌then◌else◌, ◌==◌, nat_comparable, text_comparable, Text, codes,
}

-- An element of the array of a frame: a number whose value is natural, a text, another value that
-- Python can look up in a dictionary (`null`, `true`, `false` or another number), or an object or array,
-- which it cannot.
pub data Element : Type 0 where
  number : ℕ → Element
  string plain nested : Text → Element

-- A text message: what `json.loads` makes of it.
pub data Inbound : Type 0 where
  not_json not_array : Inbound
  array : List Element → Inbound

-- What a future holds: the payload of a result, or the code of an error with its description.
pub data Answer : Type 0 where
  result : Element → Answer
  failure : Element → Element → Answer

-- An entry of `_pending_calls`.
pub record Call : Type 0 where
  pub call_id : Text
  pub answer : Option Answer

pub record Session : Type 0 where
  pub stateful : Bool
  pub pending : List Call

pub data Action : Type 0 where
  authorize boot_notification diagnostics_status firmware_status heartbeat : Action
  meter_values start_transaction status_notification stop_transaction : Action

-- `_handlers`
abbrev actions : List (Text × Action)
actions =
    (codes "Authorize", authorize)
    ∷ (codes "BootNotification", boot_notification)
    ∷ (codes "DiagnosticsStatusNotification", diagnostics_status)
    ∷ (codes "FirmwareStatusNotification", firmware_status)
    ∷ (codes "Heartbeat", heartbeat)
    ∷ (codes "MeterValues", meter_values)
    ∷ (codes "StartTransaction", start_transaction)
    ∷ (codes "StatusNotification", status_notification)
    ∷ (codes "StopTransaction", stop_transaction)
    ∷ []

look_up : Text → List (Text × Action) → Option Action
look_up name [] = none
look_up name ((other, action) ∷ others) = if name == other then some action else look_up name others

unfoldable pub handler_for : Text → Option Action
unfolding look_up
handler_for name = look_up name actions

-- The methods of the coordinator that a session calls: those of the handlers, `record_call_error`, and
-- `record_ocpp_frame` for a frame of the charger, one of the session and one of neither, which changes
-- and stores the log of the charger's frames.
pub data Report : Type 0 where
  boot unmanaged_boot beat unmanaged_beat status unmanaged_status : Report
  authorize_exchange start_call start_exchange stop_call stop_exchange : Report
  frame_in frame_out passive_frame error_noted : Report
  meter firmware diagnostics unsupported_action : Report

unfoldable pub reports : Action → Bool → List Report
reports authorize stateful = authorize_exchange ∷ []
reports boot_notification true = boot ∷ []
reports boot_notification false = unmanaged_boot ∷ []
reports diagnostics_status true = diagnostics ∷ []
reports diagnostics_status false = unmanaged_beat ∷ []
reports firmware_status true = firmware ∷ []
reports firmware_status false = unmanaged_beat ∷ []
reports heartbeat true = beat ∷ []
reports heartbeat false = unmanaged_beat ∷ []
reports meter_values true = meter ∷ []
reports meter_values false = unmanaged_beat ∷ []
reports start_transaction true = start_call ∷ start_exchange ∷ []
reports start_transaction false = passive_frame ∷ []
reports status_notification true = status ∷ []
reports status_notification false = unmanaged_status ∷ []
reports stop_transaction true = stop_call ∷ stop_exchange ∷ []
reports stop_transaction false = passive_frame ∷ []

-- What a handler answers: the time with an interval, the time, nothing, the acceptance of a tag, or a
-- transaction with it.
pub data Reply : Type 0 where
  registered time nothing tag_accepted : Reply
  transaction : ℕ → Reply

-- `identifier` is the transaction that the coordinator opens.
unfoldable pub reply : Action → Bool → ℕ → Reply
reply authorize stateful identifier = tag_accepted
reply boot_notification stateful identifier = registered
reply diagnostics_status stateful identifier = nothing
reply firmware_status stateful identifier = nothing
reply heartbeat stateful identifier = time
reply meter_values stateful identifier = nothing
reply start_transaction true identifier = transaction identifier
reply start_transaction false identifier = transaction 0
reply status_notification stateful identifier = nothing
reply stop_transaction stateful identifier = tag_accepted

pub data ErrorCode : Type 0 where
  formation_violation not_implemented internal_error : ErrorCode

-- A frame that the session sends; an error without an identifier has one that is drawn at random.
pub data Outbound : Type 0 where
  call_result : Element → Reply → Outbound
  call_error : Option Element → ErrorCode → Outbound

-- How a handler ends, which is given: with an exception in one of the methods that it calls, after so
-- many others, or with the transaction that the coordinator has opened where it opens one.
pub data End : Type 0 where
  raised_after returned : ℕ → End

-- The first so many and one more.
unfoldable pub through {ℓ} : {A : Type ℓ} → ℕ → List A → List A
through n [] = []
through zero (x ∷ xs) = x ∷ []
through (suc n) (x ∷ xs) = x ∷ through n xs

-- A value that counts as true in Python.
unfoldable pub is_truthy : Element → Bool
is_truthy (number n) = not (n == 0)
is_truthy (string text) = not (text == [])
is_truthy (plain text) = not (text == codes "null" || text == codes "false")
is_truthy (nested text) = not (text == codes "{}" || text == codes "[]")

-- `unique_id or uuid4().hex`
unfoldable pub or_drawn : Option Element → Option Element
unfolding is_truthy
or_drawn none = none
or_drawn (some id) = if is_truthy id then some id else none

-- `_send_call_error`: the frame, and what is recorded of it.
unfoldable pub send_call_error : Option Element → ErrorCode → List Outbound × List Report
unfolding or_drawn
send_call_error id code = (call_error (or_drawn id) code ∷ [], error_noted ∷ frame_out ∷ [])

-- The methods that were called before an error is sent.
abbrev pub after_reports : List Report → List Outbound × List Report → List Outbound × List Report
after_reports earlier (sent, reported) = (sent, earlier ++ reported)

unfoldable pub handle_action : Element → Bool → End → Option Action → List Outbound × List Report
unfolding reports reply through send_call_error
handle_action id stateful end none =
    after_reports (unsupported_action ∷ []) (send_call_error (some id) not_implemented)
handle_action id stateful (raised_after n) (some action) =
    after_reports (through n (reports action stateful)) (send_call_error (some id) internal_error)
handle_action id stateful (returned identifier) (some action) = (
  call_result id (reply action stateful identifier) ∷ [],
  reports action stateful ++ frame_out ∷ [],
)

-- `_handle_inbound_call`; none where the lookup raises.
unfoldable pub handle_inbound_call :
    Element → Element → Bool → End → Option (List Outbound × List Report)
unfolding handle_action handler_for
handle_inbound_call id (string name) stateful end =
    some (handle_action id stateful end (handler_for name))
handle_inbound_call id (number n) stateful end = some (handle_action id stateful end none)
handle_inbound_call id (plain text) stateful end = some (handle_action id stateful end none)
handle_inbound_call id (nested text) stateful end = none

-- `future.set_result` and `future.set_exception`, for a future that is not done.
abbrev pub or_later : Option Answer → Option Answer → Option Answer
or_later (some first) later = some first
or_later none later = later

abbrev pub settle : Answer → Call → Call
settle answer call = record call { answer = or_later call.answer (some answer) }

unfoldable pub settle_call : Text → Answer → List Call → List Call
settle_call id answer [] = []
settle_call id answer (call ∷ calls) =
    (if call.call_id == id then settle answer call else call) ∷ settle_call id answer calls

-- The answer of the call with an identifier; none where the lookup raises.
unfoldable pub complete : Element → Answer → Session → Option Session
unfolding settle_call
complete (string id) answer s = some (record s { pending = settle_call id answer s.pending })
complete (number n) answer s = some s
complete (plain text) answer s = some s
complete (nested text) answer s = none

-- The identifier of a frame of another shape.
unfoldable pub second : List Element → Option Element
second [] = none
second (x ∷ []) = none
second (x ∷ y ∷ rest) = some y

-- The shapes of frames: `CALL` with four elements, `CALL_RESULT` with three, `CALL_ERROR` with five.
pub data Shape : Type 0 where
  call : Element → Element → Element → Shape
  call_result_for : Element → Element → Shape
  call_error_for : Element → Element → Element → Shape
  unsupported : Option Element → Shape

unfoldable pub shape : List Element → Shape
unfolding second
shape (number n ∷ id ∷ action ∷ payload ∷ []) =
    if n == 2 then call id action payload else unsupported (some id)
shape (number n ∷ id ∷ payload ∷ []) =
    if n == 3 then call_result_for id payload else unsupported (some id)
shape (number n ∷ id ∷ code ∷ description ∷ details ∷ []) =
    if n == 4 then call_error_for id code description else unsupported (some id)
shape frame = unsupported (second frame)

-- What a message has the session send and report, and the session after it. The message itself is
-- recorded first.
pub record Handled : Type 0 where
  pub sent : List Outbound
  pub reported : List Report
  pub session : Session

abbrev pub answered : Session → Option (List Outbound × List Report) → Option Handled
answered s none = none
answered s (some (sent, reported)) =
    some (record { sent = sent; reported = frame_in ∷ reported; session = s })

abbrev pub quietly : Option Session → Option Handled
quietly none = none
quietly (some s) = some (record { sent = []; reported = frame_in ∷ []; session = s })

unfoldable pub refuse : Option Element → Session → Option Handled
unfolding send_call_error
refuse id s = answered s (some (send_call_error id formation_violation))

unfoldable pub handle_shape : Shape → End → Session → Option Handled
unfolding handle_inbound_call complete refuse
handle_shape (call id action payload) end s =
    answered s (handle_inbound_call id action s.stateful end)
handle_shape (call_result_for id payload) end s = quietly (complete id (result payload) s)
handle_shape (call_error_for id code description) end s =
    quietly (complete id (failure code description) s)
handle_shape (unsupported id) end s = refuse id s

-- `_handle_text_message`; none where an exception leaves it, which ends the session when the message
-- has been recorded. `end` is how the
-- handler of a call ends.
unfoldable pub handle_text_message : Inbound → End → Session → Option Handled
unfolding handle_shape shape refuse
handle_text_message not_json end s = refuse none s
handle_text_message not_array end s = refuse none s
handle_text_message (array []) end s = refuse none s
handle_text_message (array (x ∷ xs)) end s = handle_shape (shape (x ∷ xs)) end s
