-- ===== src/Ocpp/Admission.antt =====
-- Who is admitted as a charger, and which session its calls go to, in
-- givEVC-ocppv2/app/ocpp/server.py.
use giv_evc_ocppv.Base.{
  ℕ, Bool, true, false, Option, none, some, List, ◌∷◌, ◌≡◌, refl, ◌==◌, text_comparable, beq_self,
  Text, strip, Bool-cases, Option-cases, inl, inr, ◌⊎◌, ap, sym, ◌∙◌, text_beq_sound,
}
use giv_evc_ocppv.Accounts.Tables.{Store, Crypto, Charger, Onboarding, Result, ok, err}
use giv_evc_ocppv.Accounts.Email.{is_nonempty}
use giv_evc_ocppv.Accounts.Chargers.{
  is_assigned, verify_charger_password, claim_charger_by_password, pending_onboarding,
  accepts_password, kept_charger,
}
use giv_evc_ocppv.Accounts.Claims.{claim_charger_by_password-verify_charger_password}
use giv_evc_ocppv.Ocpp.Server.{
  is_allowed_origin, admitted_with, claimed_by, check_password, admit, Sessions, session_at,
  without_session, open_session, remove_own, close_session, sent_to, send_call,
}

-- The password of a charger, or any where its row has none.
abbrev pub IsSecretOf : Crypto → Text → Charger → Type 0
IsSecretOf crypto password c =
    (c.ocpp_password_hash ≡ none) ⊎ (c.ocpp_password_hash ≡ some (crypto.hash_secret password))

accepts_password-IsSecretOf :
    (crypto : Crypto) (password : Text) (found : Option Charger)
    → accepts_password crypto password found ≡ true
    → (c : Charger) × (found ≡ some c) × IsSecretOf crypto password c
unfolding accepts_password
accepts_password-IsSecretOf crypto password none h = cc
accepts_password-IsSecretOf crypto password (some c) h = elim (Option-cases c.ocpp_password_hash) [
  | inl open_still ↦ (c, refl, inl open_still)
  | inr (hash, stored) ↦
      let same : (crypto.hash_secret password == hash) ≡ true = rw stored at h in
      (c, refl, inr (stored ∙ ap some (sym (text_beq_sound _ hash same))))
]

verify_charger_password-IsSecretOf :
    (crypto : Crypto) (id password : Text) (s : Store)
    → verify_charger_password crypto id password s ≡ true
    → (c : Charger) × (kept_charger id s ≡ some c) × IsSecretOf crypto password c
unfolding verify_charger_password
verify_charger_password-IsSecretOf crypto id password s h =
    accepts_password-IsSecretOf crypto password (kept_charger id s) h

-- The password of an adopted charger, or of an onboarding that waits for one.
abbrev pub HasSecret : Crypto → ℕ → Text → Text → Store → Type 0
HasSecret crypto now id password s =
    ((c : Charger) × (kept_charger id s ≡ some c) × IsSecretOf crypto password c)
    ⊎ ((is_assigned id s.chargers ≡ false)
        × (onboarding : Onboarding) × (pending_onboarding (crypto.hash_secret password) now
              s.onboardings
            ≡ some onboarding))

claimed_by-admitted_with :
    (crypto : Crypto) (charger : Text) (now : ℕ) (id password : Text) (s : Store)
    (claim : Result (Option Charger) × Store) {after : Store}
    → claim_charger_by_password crypto charger now id password s ≡ claim
    → claimed_by id claim ≡ admitted_with after
    → (onboarding : Onboarding) × (pending_onboarding
          (crypto.hash_secret password)
          now
          s.onboardings
        ≡ some onboarding)
unfolding claimed_by
claimed_by-admitted_with crypto charger now id password s (err e, t) claims h = cc
claimed_by-admitted_with crypto charger now id password s (ok none, t) claims h = cc
claimed_by-admitted_with crypto charger now id password s (ok (some c), t) claims h =
    let (onboarding, found, _, _, _) =
      claim_charger_by_password-verify_charger_password crypto charger now id password s claims in
    (onboarding, found)

check_password-HasSecret :
    (crypto : Crypto) (charger : Text) (now : ℕ) (id password : Text) (s : Store) {after : Store}
    → check_password crypto charger now id password s ≡ admitted_with after
    → HasSecret crypto now id password s
unfolding check_password
check_password-HasSecret crypto charger now id password s h =
    elim (Bool-cases (is_nonempty password)) [
      | inr empty ↦ cc (rw (check_password, empty) at h)
      | inl given ↦ elim (Bool-cases (is_assigned id s.chargers)) [
        | inr unknown ↦
            let (onboarding, found) =
              claimed_by-admitted_with crypto charger now id password s
                (claim_charger_by_password crypto charger now id password s) refl
                (rw (check_password, given, unknown) at h) in
            inr (unknown, onboarding, found)
        | inl adopted ↦ elim (Bool-cases (verify_charger_password crypto id password s)) [
          | inl right ↦ inl (verify_charger_password-IsSecretOf crypto id password s right)
          | inr wrong ↦ cc (rw (check_password, given, adopted, wrong) at h)
        ]
      ]
    ]

-- A charger is admitted only with an identity, not from a page of another host, and either as the
-- adopted charger of its charge point, with the password whose hash its row has, or any where the row
-- has none, or, where its charge point is of no adopted charger, with the password of an onboarding
-- that is pending.
pub admit-HasSecret :
    (crypto : Crypto) (charger : Text) (now : ℕ) (id : Text) (origin host : Option Text)
    (password : Text) (s : Store) {after : Store}
    → admit crypto charger now id origin host password s ≡ admitted_with after
    → (is_nonempty id ≡ true)
      × (is_allowed_origin origin host ≡ true)
      × HasSecret crypto now id password s
unfolding admit
admit-HasSecret crypto charger now id origin host password s h =
    elim (Bool-cases (is_nonempty id)) [
      | inr empty ↦ cc (rw (admit, empty) at h)
      | inl given ↦ elim (Bool-cases (is_allowed_origin origin host)) [
        | inr foreign ↦ cc (rw (admit, given, foreign) at h)
        | inl allowed ↦ (
          given,
          allowed,
          check_password-HasSecret crypto charger now id password s
              (rw (admit, given, allowed) at h),
        )
      ]
    ]

remove_own-other :
    (id old new : Text) (rows : List (Text × Text))
    → (new == old) ≡ false
    → remove_own id old ((id, new) ∷ rows) ≡ (id, new) ∷ rows
unfolding remove_own session_at
remove_own-other id old new rows differ = rw (remove_own, beq_self id, differ)

-- The end of a session that another one of the same charger has replaced changes nothing: the calls
-- to an adopted charger go to the session that is open.
pub close_session-replaced :
    (id old new : Text) (closed : Text → Bool) (s : Store) (t : Sessions)
    → (new == old) ≡ false
    → is_nonempty id ≡ true
    → is_assigned id s.chargers ≡ true
    → closed new ≡ false
    → (close_session id old (open_session id new t) ≡ open_session id new t)
      × (send_call id closed s (close_session id old (open_session id new t)) ≡ sent_to new)
unfolding close_session open_session send_call session_at
close_session-replaced id old new closed s t differ given adopted live =
    let kept = remove_own-other id old new (without_session id t.open_sessions) differ in
    let caller =
      remove_own-other (strip id) old new (without_session (strip id) t.callers) differ in
    (rw (kept, caller), rw (kept, given, adopted, beq_self id, live))
