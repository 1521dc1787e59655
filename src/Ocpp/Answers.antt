-- ===== src/Ocpp/Answers.antt =====
-- What the calls of the server to a charger return, in
-- givEVC-ocppv2/app/ocpp/charge_point.py.
use giv_evc_ocppv.Base.{
  Bool, true, false, Option, none, some, List, [], ◌∷◌, ◌≡◌, refl, ◌∙◌, sym, ap, if◌then◌else◌,
  ◌==◌, nat_comparable, text_comparable, beq_self, text_beq_sound, Text, arith, Bool-cases,
  Option-cases, inl, inr,
}
use giv_evc_ocppv.Accounts.Rows.{map_option, beq_apart}
use giv_evc_ocppv.Ocpp.Session.{
  End, Report, quietly, answered, refuse, Element, number, string, plain, nested, Inbound, not_json,
  not_array, array, Answer, result, failure, Call, Session, Outbound, Shape, call, call_result_for,
  call_error_for, unsupported, shape, Handled, handle_shape, handle_text_message, complete, settle,
  or_later, settle_call, handle_inbound_call,
}
use giv_evc_ocppv.Ocpp.Calls.{
  handle_all, find_call, outcome, without_call, add_call, async_call, timed_out, answered_with,
}

-- The answer that a frame has for a call: of a result or of an error with the identifier of the call.
unfoldable pub names_call : Text → Element → Bool
names_call id (string other) = other == id
names_call id (number n) = false
names_call id (plain text) = false
names_call id (nested text) = false

unfoldable pub answer_for : Text → Shape → Option Answer
unfolding names_call
answer_for id (call_result_for other payload) =
    if names_call id other then some (result payload) else none
answer_for id (call_error_for other code description) =
    if names_call id other then some (failure code description) else none
answer_for id (call other action payload) = none
answer_for id (unsupported other) = none

unfoldable pub answer_in : Text → Inbound → Option Answer
unfolding answer_for shape
answer_in id not_json = none
answer_in id not_array = none
answer_in id (array frame) = answer_for id (shape frame)

-- The first answer with the identifier, of the messages in order.
unfoldable pub first_answer : Text → List (Inbound × End) → Option Answer
unfolding answer_in
first_answer id [] = none
first_answer id ((message, end) ∷ messages) =
    or_later (answer_in id message) (first_answer id messages)

settle_call-own :
    (id : Text) (a : Answer) (calls : List Call) {waiting : Call}
    → find_call id calls ≡ some waiting
    → find_call id (settle_call id a calls) ≡ some (settle a waiting)
unfolding find_call settle_call
settle_call-own id a [] h = cc
settle_call-own id a (c ∷ calls) {waiting} h = elim (Bool-cases (c.call_id == id)) [
  | inr other ↦ rw (other, other) (settle_call-own id a calls (rw other at h))
  | inl same ↦
      let found : some c ≡ some waiting = rw same at h in
      let equal : c ≡ waiting = cc in rw (same, same) (ap (λ x. some (settle a x)) equal)
]

settle_call-other :
    (id other : Text) (a : Answer) (calls : List Call)
    → (other == id) ≡ false
    → find_call id (settle_call other a calls) ≡ find_call id calls
unfolding find_call settle_call
settle_call-other id other a [] differ = refl
settle_call-other id other a (c ∷ calls) differ = elim (Bool-cases (c.call_id == other)) [
  | inr away ↦ rw away (ground (arith, settle_call-other id other a calls differ))
  | inl same ↦
      let not_mine = beq_apart c.call_id other id differ same in
      rw (same, not_mine) (settle_call-other id other a calls differ)
]

-- One message: the future of the call gets the answer that the message has for it.
complete-find_call :
    (id : Text) (of : Element) (a : Answer) (s : Session) {after : Session} {waiting : Call}
    → find_call id s.pending ≡ some waiting
    → complete of a s ≡ some after
    → find_call id after.pending ≡ some (if names_call id of then settle a waiting else waiting)
unfolding complete names_call
complete-find_call id (number n) a s {after} found h =
    let same : s ≡ after = cc in rw (← same) found
complete-find_call id (plain text) a s {after} found h =
    let same : s ≡ after = cc in rw (← same) found
complete-find_call id (nested text) a s found h = cc
complete-find_call id (string other) a s {after} {waiting} found h =
    let same : record s { pending = settle_call other a s.pending } ≡ after = cc in
    rw (ap (λ (t : Session). t.pending) (sym same)) (elim (Bool-cases (other == id)) [
      | inl mine ↦ rw (mine, text_beq_sound other id mine) (settle_call-own id a s.pending found)
      | inr away ↦ rw away (settle_call-other id other a s.pending away ∙ found)
    ])

-- The future of a call after one message.
abbrev with_later : Call → Option Answer → Call
with_later waiting later = record waiting { answer = or_later waiting.answer later }

or_later-none : (first : Option Answer) → or_later first none ≡ first
or_later-none none = refl
or_later-none (some a) = refl

or_later_assoc : (a b c : Option Answer) → or_later (or_later a b) c ≡ or_later a (or_later b c)
or_later_assoc none b c = refl
or_later_assoc (some a) b c = refl

with_later-none : (waiting : Call) → with_later waiting none ≡ waiting
with_later-none waiting = ap (λ o. record waiting { answer = o }) (or_later-none waiting.answer)

session_of : Option Handled → Option Session
session_of handled = map_option (λ h. h.session) handled

-- A message that leaves the session as it was.
unchanged-find_call :
    (id : Text) (s after : Session) {waiting : Call}
    → find_call id s.pending ≡ some waiting
    → after ≡ s
    → find_call id after.pending ≡ some (with_later waiting none)
unchanged-find_call id s after {waiting} found same =
    rw (ap (λ (t : Session). t.pending) same, with_later-none waiting) found

refuse-session :
    (of : Option Element) (s : Session) {handled : Handled}
    → refuse of s ≡ some handled
    → handled.session ≡ s
unfolding session_of refuse
refuse-session of s {handled} h = let same : some s ≡ some handled.session = ap session_of h in cc

refuse-find_call :
    (id : Text) (of : Option Element) (s : Session) {handled : Handled} {waiting : Call}
    → find_call id s.pending ≡ some waiting
    → refuse of s ≡ some handled
    → find_call id handled.session.pending ≡ some (with_later waiting none)
refuse-find_call id of s {handled} found h =
    unchanged-find_call id s handled.session found (refuse-session of s h)

pub answered-session :
    (s : Session) (done : Option (List Outbound × List Report)) {handled : Handled}
    → answered s done ≡ some handled
    → handled.session ≡ s
unfolding session_of
answered-session s none h = cc
answered-session s (some (sent, reported)) {handled} h =
    let same : some s ≡ some handled.session = ap session_of h in cc

quietly-find_call :
    (id : Text) (of : Element) (a : Answer) (s : Session) {handled : Handled} {waiting : Call}
    → find_call id s.pending ≡ some waiting
    → quietly (complete of a s) ≡ some handled
    → find_call id handled.session.pending
      ≡ some (with_later waiting (if names_call id of then some a else none))
quietly-find_call id of a s {handled} {waiting} found h = elim (Option-cases (complete of a s)) [
  | inl ended ↦ cc (rw ended at h)
  | inr (after, completed) ↦
      let made = rw completed at h in
      let same : after ≡ handled.session =
        cc (ap (λ (t : Option Handled). map_option (λ x. x.session) t) made) in
      rw (ap (λ (t : Session). t.pending) (sym same), complete-find_call id of a s found completed)
        (elim (Bool-cases (names_call id of)) [
          | inl mine ↦ rw mine
          | inr away ↦ rw away (ap some (sym (with_later-none waiting)))
        ])
]

handle_shape-find_call :
    (id : Text) (frame : Shape) (end : End) (s : Session) {handled : Handled} {waiting : Call}
    → find_call id s.pending ≡ some waiting
    → handle_shape frame end s ≡ some handled
    → find_call id handled.session.pending ≡ some (with_later waiting (answer_for id frame))
unfolding handle_shape answer_for
handle_shape-find_call id (call other action payload) end s {handled} found h =
    unchanged-find_call id s handled.session found
      (answered-session s (handle_inbound_call other action s.stateful end) h)
handle_shape-find_call id (call_result_for other payload) end s found h =
    quietly-find_call id other (result payload) s found h
handle_shape-find_call id (call_error_for other code description) end s found h =
    quietly-find_call id other (failure code description) s found h
handle_shape-find_call id (unsupported other) end s found h = refuse-find_call id other s found h

handle_text_message-find_call :
    (id : Text) (message : Inbound) (end : End) (s : Session) {handled : Handled} {waiting : Call}
    → find_call id s.pending ≡ some waiting
    → handle_text_message message end s ≡ some handled
    → find_call id handled.session.pending ≡ some (with_later waiting (answer_in id message))
unfolding handle_text_message answer_in
handle_text_message-find_call id not_json end s found h = refuse-find_call id none s found h
handle_text_message-find_call id not_array end s found h = refuse-find_call id none s found h
handle_text_message-find_call id (array []) end s found h = refuse-find_call id none s found h
handle_text_message-find_call id (array (x ∷ xs)) end s found h =
    handle_shape-find_call id (shape (x ∷ xs)) end s found h

handle_all-find_call :
    (id : Text) (messages : List (Inbound × End)) (s : Session) {after : Session} {waiting : Call}
    → find_call id s.pending ≡ some waiting
    → handle_all messages s ≡ some after
    → find_call id after.pending ≡ some (with_later waiting (first_answer id messages))
unfolding handle_all first_answer
handle_all-find_call id [] s {after} {waiting} found h =
    let same : s ≡ after = cc in rw (with_later-none waiting, ← same) found
handle_all-find_call id ((message, end) ∷ messages) s {after} {waiting} found h =
    elim (Option-cases (handle_text_message message end s)) [
      | inl ended ↦ cc (rw (handle_all, ended) at h)
      | inr (handled, done) ↦
          let here = handle_text_message-find_call id message end s found done in
          let later =
            handle_all-find_call id messages handled.session here (rw (handle_all, done) at h) in
          later
          ∙ ap (λ o. some (record waiting { answer = o }))
              (or_later_assoc waiting.answer (answer_in id message) (first_answer id messages))
    ]

added-find_call :
    (id : Text) (s : Session)
    → find_call id (add_call id s).pending ≡ some (record { call_id = id; answer = none })
unfolding find_call add_call
added-find_call id s = rw (beq_self id)

without_call-find_call :
    (id : Text) (calls : List Call) → find_call id (without_call id calls) ≡ none
unfolding find_call without_call
without_call-find_call id [] = refl
without_call-find_call id (c ∷ calls) = ground (arith, without_call-find_call id calls)

-- A call returns what the first message of the charger with its identifier says, a result or an error;
-- without one it times out. Whichever it is, the call does not wait afterwards.
pub async_call-first_answer :
    (id : Text) (messages : List (Inbound × End)) (meanwhile : Session → Session) (s : Session)
    → handle_all messages (add_call id s) ≡ some (meanwhile (add_call id s))
    → ((async_call id false true meanwhile s).0
        ≡ (elim (first_answer id messages) [ none ↦ timed_out | some a ↦ answered_with a ]))
      × (find_call id (async_call id false true meanwhile s).1.pending ≡ none)
unfolding async_call outcome
async_call-first_answer id messages meanwhile s handled =
    let waiting : Call = record { call_id = id; answer = none } in
    let mine = added-find_call id s in
    (
      rw (handle_all-find_call id messages (add_call id s) mine handled) refl,
      without_call-find_call id (meanwhile (add_call id s)).pending,
    )
