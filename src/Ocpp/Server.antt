-- ===== src/Ocpp/Server.antt =====
-- The admission of chargers and the table of their sessions, `OcppServer` of
-- givEVC-ocppv2/app/ocpp/server.py. The store of accounts is given, and a charger counts as adopted
-- where the store has a kept one of its charge point, as main.py has the coordinator ask.
use giv_evc_ocppv.Base.{
  ℕ, Bool, true, false, not, Option, none, some, List, [], ◌∷◌, if◌then◌else◌, ◌==◌, nat_comparable,
  text_comparable, Text, codes, strip,
}
use giv_evc_ocppv.Accounts.Tables.{Store, Crypto, Charger, Result, ok, err, delete_where}
use giv_evc_ocppv.Accounts.Email.{is_nonempty}
use giv_evc_ocppv.Accounts.Keys.{starts_with}
use giv_evc_ocppv.Accounts.Chargers.{
  is_assigned, verify_charger_password, claim_charger_by_password, set_offline_at,
}

-- `.split(c, 1)[0]`
unfoldable pub before : ℕ → Text → Text
before c [] = []
before c (d ∷ text) = let rest = before c text in if d == c then [] else d ∷ rest

drop_scheme : Text → Text
drop_scheme (a ∷ b ∷ c ∷ text) = text
drop_scheme text = text

-- `.split("://", 1)[-1]`; none where the text has no such part.
after_scheme : Text → Option Text
unfolding drop_scheme starts_with
after_scheme [] = none
after_scheme (c ∷ text) =
    let rest = after_scheme text in
    if starts_with (codes "://") (c ∷ text) then some (drop_scheme (c ∷ text)) else rest

abbrev or_whole : Text → Option Text → Text
or_whole text none = text
or_whole text (some part) = part

-- The host that a browser names in the header `Origin`.
unfoldable pub origin_host : Text → Text
unfolding after_scheme before
origin_host origin = before 58 (before 47 (or_whole origin (after_scheme origin)))

-- The header is missing, or names the host of the request.
unfoldable pub is_allowed_origin : Option Text → Option Text → Bool
unfolding origin_host
is_allowed_origin none host = true
is_allowed_origin (some origin) none = false
is_allowed_origin (some origin) (some host) = origin_host origin == host

-- The password of the header `Authorization`: what follows the first colon, or all of it.
unfoldable pub after_colon : Text → Option Text
after_colon [] = none
after_colon (c ∷ text) = let rest = after_colon text in if c == 58 then some text else rest

unfoldable pub basic_password : Text → Text
unfolding after_colon
basic_password decoded = or_whole decoded (after_colon decoded)

-- An answer of HTTP, or the start of a session; the tables are the ones that the store has then.
pub data Admission : Type 0 where
  rejected : ℕ → Store → Admission
  admitted_with : Store → Admission

-- The charger is claimed by its password; an error of the claim counts as no charger.
unfoldable pub claimed_by : Text → Result (Option Charger) × Store → Admission
unfolding set_offline_at
claimed_by id (err e, s) = rejected 401 s
claimed_by id (ok none, s) = rejected 401 s
claimed_by id (ok (some charger), s) = admitted_with (set_offline_at none id s)

-- `password` is none or empty where the header has none.
unfoldable pub check_password : Crypto → Text → ℕ → Text → Text → Store → Admission
unfolding is_assigned verify_charger_password claim_charger_by_password claimed_by set_offline_at
check_password crypto charger now id password s =
    if not (is_nonempty password)
    then rejected 401 s
    else if is_assigned id s.chargers
    then (if verify_charger_password crypto id password s
        then admitted_with (set_offline_at none id s)
        else rejected 401 s)
    else claimed_by id (claim_charger_by_password crypto charger now id password s)

-- The part of `_handle_websocket` before the WebSocket opens. `charger` is the identifier of a charger
-- that is adopted.
unfoldable pub admit :
    Crypto → Text → ℕ → Text → Option Text → Option Text → Text → Store → Admission
unfolding is_allowed_origin check_password
admit crypto charger now id origin host password s =
    if not (is_nonempty id)
    then rejected 400 s
    else if not (is_allowed_origin origin host)
    then rejected 403 s
    else check_password crypto charger now id password s

-- `_sessions` and the callers of the coordinator, by charge point, with the identifiers of the sessions.
pub record Sessions : Type 0 where
  pub open_sessions : List (Text × Text)
  pub callers : List (Text × Text)

unfoldable pub session_at : Text → List (Text × Text) → Option Text
session_at id [] = none
session_at id ((other, session) ∷ rest) = if other == id then some session else session_at id rest

unfoldable pub without_session : Text → List (Text × Text) → List (Text × Text)
without_session id rows = delete_where (λ r. r.0 == id) rows

-- The session is put into the tables. With a store of accounts every session is of an adopted charger.
unfoldable pub open_session : Text → Text → Sessions → Sessions
unfolding without_session strip
open_session id session t = record {
  open_sessions = (id, session) ∷ without_session id t.open_sessions;
  callers = (strip id, session) ∷ without_session (strip id) t.callers;
}

-- The entry is removed where it is of this session.
unfoldable pub remove_own : Text → Text → List (Text × Text) → List (Text × Text)
unfolding session_at without_session
remove_own id session rows = elim (session_at id rows) [
  | none ↦ rows
  | some other ↦ if other == session then without_session id rows else rows
]

-- The end of `_handle_websocket`.
unfoldable pub close_session : Text → Text → Sessions → Sessions
unfolding remove_own strip
close_session id session t = record {
  open_sessions = remove_own id session t.open_sessions;
  callers = remove_own (strip id) session t.callers;
}

pub data SendEnd : Type 0 where
  identity_required not_adopted not_connected : SendEnd
  sent_to : Text → SendEnd

-- `send_call`: the session that gets the call; `closed` says whose WebSocket is closed.
unfoldable pub send_call : Text → (Text → Bool) → Store → Sessions → SendEnd
unfolding is_assigned session_at
send_call id closed s t =
    if not (is_nonempty id)
    then identity_required
    else if not (is_assigned id s.chargers)
    then not_adopted
    else elim (session_at id t.open_sessions) [
      | none ↦ not_connected
      | some session ↦ if closed session then not_connected else sent_to session
    ]
