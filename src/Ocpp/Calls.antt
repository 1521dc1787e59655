-- ===== src/Ocpp/Calls.antt =====
-- The calls of the server to a charger, `async_call` of givEVC-ocppv2/app/ocpp/charge_point.py.
use giv_evc_ocppv.Base.{
  Bool, not, Option, none, some, List, [], ◌∷◌, if◌then◌else◌, ◌==◌, text_comparable, find, filter,
  Text,
}
use giv_evc_ocppv.Ocpp.Session.{Inbound, End, Answer, Call, Session, handle_text_message}

-- What other tasks do while a call waits, until its future is done or the time is over: the messages
-- that the session handles, in order, with the ends of their handlers. None where one of them ends the
-- session.
unfoldable pub handle_all : List (Inbound × End) → Session → Option Session
unfolding handle_text_message
handle_all [] s = some s
handle_all ((message, end) ∷ messages) s = elim (handle_text_message message end s) [
  | none ↦ none
  | some handled ↦ handle_all messages handled.session
]

-- `_cancel_pending_calls`
unfoldable pub cancel_pending_calls : Session → Session
cancel_pending_calls s = record s { pending = [] }

-- How `async_call` ends; a future without an answer has timed out.
pub data CallEnd : Type 0 where
  not_connected send_failed timed_out cancelled : CallEnd
  answered_with : Answer → CallEnd

-- `self._pending_calls.pop(unique_id, None)`
unfoldable pub without_call : Text → List Call → List Call
without_call id calls = filter (λ c. not (c.call_id == id)) calls

unfoldable pub add_call : Text → Session → Session
add_call id s = record s { pending = record { call_id = id; answer = none } ∷ s.pending }

unfoldable pub outcome : Option Call → CallEnd
outcome none = cancelled
outcome (some waiting) = elim waiting.answer [ none ↦ timed_out | some a ↦ answered_with a ]

unfoldable pub find_call : Text → List Call → Option Call
find_call id calls = find (λ c. c.call_id == id) calls

-- `async_call`, with an identifier drawn at random; `sends` says whether the frame goes out, which
-- `_send_frame` records in the log of the charger's frames and not in the session, and
-- `meanwhile` what happens to the session until the future is done or the time is over.
unfoldable pub async_call : Text → Bool → Bool → (Session → Session) → Session → CallEnd × Session
unfolding add_call outcome find_call without_call
async_call id closed sends meanwhile s =
    if closed then (not_connected, s) else if not sends then (send_failed, add_call id s) else (
      outcome (find_call id (meanwhile (add_call id s)).pending),
      record (meanwhile (add_call id s)) {
        pending = without_call id (meanwhile (add_call id s)).pending;
      },
    )
