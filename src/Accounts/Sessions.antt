-- ===== src/Accounts/Sessions.antt =====
-- Login sessions of givEVC-ocppv2/app/auth_store.py: whom a token admits and until when.
use giv_evc_ocppv.Base.{
  ℕ, ◌+◌, Bool, true, false, ◌&&◌, not, Option, none, some, List, [], ◌∷◌, ◌++◌, ◌≡◌, refl, ◌∙◌,
  sym, if◌then◌else◌, ltb, ◌==◌, text_comparable, beq_self, any, Text, arith, Bool-cases, inl, inr,
}
use giv_evc_ocppv.Accounts.Tables.{
  User, LoginSession, Store, Crypto, update_where, ok, is_set, account_disabled,
  verification_required,
}
use giv_evc_ocppv.Accounts.Email.{is_nonempty}
use giv_evc_ocppv.Accounts.Users.{
  new_session, user_by_id, create_session, session_seconds, get_user_for_session, session_owner,
  live_session, update_user,
}
use giv_evc_ocppv.Accounts.Inversion.{ok_inj, require-ok, row_or-ok}
use giv_evc_ocppv.Accounts.Rows.{map_option, find-update_where_view, find-and}

-- The identifier of a user that was found.
abbrev pub login_of : Option User → Option Text
login_of user = map_option (λ u. u.user_id) user

-- No row has the hash of the token, which is drawn at random.
unfoldable pub is_fresh : Crypto → Text → Store → Bool
is_fresh crypto token s = not (any (λ r. r.session_hash == crypto.hash_secret token) s.sessions)

-- The account that a session can be created for.
pub record CanSignIn (user : User) : Type 0 where
  pub enabled : is_set user.disabled_at ≡ false
  pub verified : is_set user.email_verified_at ≡ true

pub create_session-ok :
    (crypto : Crypto) (token : Text) (now : ℕ) (id : Text) (s : Store) {after : Store}
    → create_session crypto token now id s ≡ ok after
    → (user : User) × (user_by_id id s.users ≡ some user)
      × CanSignIn user
      × (after ≡ record s {
        sessions =
            s.sessions ++ new_session (crypto.hash_secret token) id (now + session_seconds) ∷ [];
      })
unfolding create_session
create_session-ok crypto token now id s h =
    let (user, found, rest) = row_or-ok _ _ _ h in
    let (enabled, more) = require-ok (not (is_set user.disabled_at)) account_disabled _ rest in
    let (verified, made) =
      require-ok (is_set user.email_verified_at) verification_required _ more in
    (
      user,
      found,
      record { enabled = ground (arith, enabled); verified = verified },
      sym (ok_inj made),
    )

session_of-append :
    (crypto : Crypto) (token : Text) (later expires : ℕ) (id : Text) (rows : List LoginSession)
    → any (λ r. r.session_hash == crypto.hash_secret token) rows ≡ false
    → live_session
        (crypto.hash_secret token)
        later
        (rows ++ new_session (crypto.hash_secret token) id expires ∷ [])
      ≡ (if ltb later expires
          then some (new_session (crypto.hash_secret token) id expires)
          else none)
unfolding live_session
session_of-append crypto token later expires id [] h = rw (beq_self (crypto.hash_secret token))
session_of-append crypto token later expires id (row ∷ rows) h =
    ground (arith, h, session_of-append crypto token later expires id rows)

session_owner-found :
    (session : LoginSession) (users : List User) (user : User)
    → user_by_id session.session_user users ≡ some user
    → is_set user.disabled_at ≡ false
    → session_owner (some session) users ≡ user_by_id session.session_user users
unfolding session_owner user_by_id
session_owner-found session users user found enabled =
    find-and (λ u. u.user_id == session.session_user) (λ u. not (is_set u.disabled_at)) users found
      (ground (arith, enabled))
    ∙ sym found

-- Until it expires, and no longer, the token of a new session admits the user that it was made for.
pub create_session-get_user_for_session :
    (crypto : Crypto) (token : Text) (now later : ℕ) (id : Text) (s : Store) {after : Store}
    → is_nonempty token ≡ true
    → is_fresh crypto token s ≡ true
    → create_session crypto token now id s ≡ ok after
    → get_user_for_session crypto token later after
      ≡ (if ltb later (now + session_seconds) then user_by_id id s.users else none)
unfolding get_user_for_session is_fresh session_owner user_by_id
create_session-get_user_for_session crypto token now later id s given fresh h =
    let (user, found, can, made) = create_session-ok crypto token now id s h in
    rw
      (
        made,
        given,
        session_of-append crypto token later (now + session_seconds) id s.sessions
            (ground (arith, fresh)),
      )
      (elim (Bool-cases (ltb later (now + session_seconds))) [
        | inl live ↦ rw live (
            session_owner-found (new_session (crypto.hash_secret token) id (now + session_seconds))
              s.users user found can.enabled)
        | inr expired ↦ rw expired
      ])

session_owner-update_where :
    (id : Text) (f : User → User) (row : Option LoginSession) (users : List User)
    → ((u : User) → ((f u).user_id ≡ u.user_id) × ((f u).disabled_at ≡ u.disabled_at))
    → login_of (session_owner row (update_where (λ u. u.user_id == id) f users))
      ≡ login_of (session_owner row users)
unfolding session_owner
session_owner-update_where id f none users keeps = refl
session_owner-update_where id f (some row) users keeps =
    find-update_where_view (λ u. u.user_id == row.session_user && not (is_set u.disabled_at))
      (λ u. u.user_id == id) f (λ u. u.user_id) users (λ u. rw ((keeps u).0, (keeps u).1))
      (λ u. (keeps u).0)

-- A change of users that keeps who is disabled admits the same ones.
pub update_user-get_user_for_session :
    (crypto : Crypto) (token : Text) (later : ℕ) (id : Text) (f : User → User) (s : Store)
    → ((u : User) → ((f u).user_id ≡ u.user_id) × ((f u).disabled_at ≡ u.disabled_at))
    → login_of (get_user_for_session crypto token later (update_user id f s))
      ≡ login_of (get_user_for_session crypto token later s)
unfolding get_user_for_session update_user
update_user-get_user_for_session crypto token later id f s keeps =
    elim (Bool-cases (is_nonempty token)) [
      | inl given ↦ rw given (session_owner-update_where id f _ s.users keeps)
      | inr empty ↦ rw empty
    ]
