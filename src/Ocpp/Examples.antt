-- ===== src/Ocpp/Examples.antt =====
-- A session and an admission on which the theorems about givEVC-ocppv2/app/ocpp/charge_point.py and
-- ocpp/server.py are applied.
use giv_evc_ocppv.Base.{
  ℕ, ◌≤◌, ◌++◌, length, arith, false, true, none, some, List, [], ◌∷◌, ◌≡◌, refl, codes,
  text_comparable, ◌==◌, text_beq,
}
use giv_evc_ocppv.Accounts.Tables.{Store, Crypto}
use giv_evc_ocppv.Accounts.Users.{new_user}
use giv_evc_ocppv.Accounts.Email.{is_nonempty}
use giv_evc_ocppv.Accounts.Chargers.{new_charger, is_assigned}
use giv_evc_ocppv.Ocpp.Session.{
  End, returned, Handled, call_result, time, beat, frame_in, frame_out, number, string, nested,
  Inbound, array, result, Session, handle_text_message,
}
use giv_evc_ocppv.Ocpp.Calls.{handle_all, find_call, add_call, async_call, timed_out, answered_with}
use giv_evc_ocppv.Ocpp.Answers.{first_answer, async_call-first_answer}
use giv_evc_ocppv.Ocpp.Replies.{Answers, handle_text_message-Answers}
use giv_evc_ocppv.Ocpp.Frames.{max_stored_frames, latest_part, record_frames, record_frames-latest}
use giv_evc_ocppv.Ocpp.Server.{
  Sessions, open_session, close_session, send_call, sent_to, admit, is_allowed_origin,
}
use giv_evc_ocppv.Ocpp.Admission.{HasSecret, admit-HasSecret, close_session-replaced}

abbrev idle : Session
idle = record { stateful = true; pending = [] }

abbrev heartbeat_call : Inbound
heartbeat_call =
    array (number 2 ∷ string (codes "h1") ∷ string (codes "Heartbeat") ∷ nested (codes "{}") ∷ [])

abbrev messages : List (Inbound × End)
messages =
    (heartbeat_call, returned 0)
    ∷ (array (number 3 ∷ string (codes "other") ∷ nested (codes "{}") ∷ []), returned 0)
    ∷ (array (number 3 ∷ string (codes "call") ∷ nested (codes "yes") ∷ []), returned 0)
    ∷ (array (number 3 ∷ string (codes "call") ∷ nested (codes "no") ∷ []), returned 0)
    ∷ []

abbrev answered_session : Session
answered_session = record {
  stateful = true;
  pending = record { call_id = codes "call"; answer = some (result (nested (codes "yes"))) } ∷ [];
}

abbrev heartbeat_handled : Handled
heartbeat_handled = record {
  sent = call_result (string (codes "h1")) time ∷ [];
  reported = frame_in ∷ beat ∷ frame_out ∷ [];
  session = idle;
}

async_call-first_answer_example :
    ((async_call (codes "call") false true (λ s. answered_session) idle).0
      ≡ (elim (first_answer (codes "call") messages) [
        | none ↦ timed_out
        | some a ↦ answered_with a
      ]))
    × (find_call
          (codes "call")
          (async_call (codes "call") false true (λ s. answered_session) idle).1.pending
        ≡ none)
unfolding handle_all add_call text_beq
async_call-first_answer_example =
    async_call-first_answer (codes "call") messages (λ s. answered_session) idle refl

handle_text_message-Answers_example :
    Answers (string (codes "h1")) heartbeat_handled.sent × (heartbeat_handled.session ≡ idle)
unfolding handle_text_message text_beq
handle_text_message-Answers_example =
    handle_text_message-Answers (string (codes "h1")) (string (codes "Heartbeat"))
      (nested (codes "{}")) (returned 0) idle {handled = heartbeat_handled} refl

abbrev plain_crypto : Crypto
plain_crypto = record {
  hash_secret = λ secret. secret;
  hash_password = λ salt password. password;
  verify_password = λ password hash. password == hash;
  encrypt_secret = λ secret. secret;
  decrypt_secret = λ secret. secret;
  totp_code = λ secret moment. [];
}

abbrev tables : Store
tables = record {
  users = new_user (codes "u1") (codes "ann@site.uk") [] none true 1 ∷ [];
  sessions = [];
  otps = [];
  resets = [];
  chargers =
      new_charger (codes "c1") (codes "u1") (codes "CP-1") (codes "Drive") (some (codes "plug")) 5
      ∷ [];
  onboardings = [];
  api_keys = [];
}

admit-HasSecret_example :
    (is_nonempty (codes "CP-1") ≡ true)
    × (is_allowed_origin (some (codes "https://site.uk:8443/x")) (some (codes "site.uk")) ≡ true)
    × HasSecret plain_crypto 100 (codes "CP-1") (codes "plug") tables
unfolding admit text_beq
admit-HasSecret_example =
    admit-HasSecret plain_crypto (codes "c2") 100 (codes "CP-1")
      (some (codes "https://site.uk:8443/x")) (some (codes "site.uk")) (codes "plug") tables
      {after = tables} refl

abbrev no_sessions : Sessions
no_sessions = record { open_sessions = []; callers = [] }

abbrev old_session : Sessions
old_session = open_session (codes "CP-1") (codes "s1") no_sessions

close_session-replaced_example :
    (close_session
        (codes "CP-1")
        (codes "s1")
        (open_session (codes "CP-1") (codes "s2") old_session)
      ≡ open_session (codes "CP-1") (codes "s2") old_session)
    × (send_call
          (codes "CP-1")
          (λ s. s == codes "s1")
          tables
          (close_session
            (codes "CP-1")
            (codes "s1")
            (open_session (codes "CP-1") (codes "s2") old_session))
        ≡ sent_to (codes "s2"))
unfolding is_assigned text_beq
close_session-replaced_example =
    close_session-replaced (codes "CP-1") (codes "s1") (codes "s2") (λ s. s == codes "s1") tables
      old_session refl refl refl refl

abbrev old_log : List ℕ
old_log = 5 ∷ 6 ∷ []

abbrev new_frames : List ℕ
new_frames = 7 ∷ 8 ∷ []

record_frames-latest_example :
    (record_frames new_frames old_log ≡ latest_part max_stored_frames (old_log ++ new_frames))
    × (length (record_frames new_frames old_log) ≤ max_stored_frames)
    × (length (old_log ++ new_frames) ≤ max_stored_frames
        → record_frames new_frames old_log ≡ old_log ++ new_frames)
record_frames-latest_example = record_frames-latest new_frames old_log (omega arith)
