-- ===== src/Accounts/GuardedExamples.antt =====
-- Requests of the demonstration account and of an administrator, on which the theorems about the
-- handlers of givEVC-ocppv2/app/main.py are applied.
use giv_evc_ocppv.Base.{
  true, none, [], ◌∷◌, ◌≡◌, refl, codes, text_beq, ◌==◌, text_comparable, false,
}
use giv_evc_ocppv.Accounts.Tables.{User, Store, Crypto}
use giv_evc_ocppv.Accounts.Users.{new_user, new_session, get_user_for_session}
use giv_evc_ocppv.Accounts.SignIn.{Draws}
use giv_evc_ocppv.Accounts.Requests.{self_deletion, account_request, disabling, admin_request}
use giv_evc_ocppv.Accounts.Guarded.{
  SameAccounts, standing, account_request-SameAccounts, admin_request-standing,
}

abbrev plain : Crypto
plain = record {
  hash_secret = λ secret. secret;
  hash_password = λ salt password. password;
  verify_password = λ password hash. password == hash;
  encrypt_secret = λ secret. secret;
  decrypt_secret = λ secret. secret;
  totp_code = λ secret moment. [];
}

abbrev draws : Draws
draws = record {
  drawn_user = [];
  drawn_row = [];
  drawn_otp = [];
  drawn_salt = [];
  drawn_token = [];
  now = 100;
  epoch = 100;
}

abbrev demo : User
demo = record (new_user (codes "d") (codes "demo@site.uk") [] none false 1) { is_demo = true }

abbrev ann : User
ann = new_user (codes "a") (codes "ann@site.uk") [] none true 1

abbrev tables : Store
tables = record {
  users = ann ∷ demo ∷ [];
  sessions =
      new_session (codes "ann's") (codes "a") 500
      ∷ new_session (codes "demo's") (codes "d") 500
      ∷ [];
  otps = [];
  resets = [];
  chargers = [];
  onboardings = [];
  api_keys = [];
}

account_request-SameAccounts_example :
    SameAccounts tables (account_request plain draws (codes "demo's") self_deletion tables).1
unfolding get_user_for_session text_beq
account_request-SameAccounts_example =
    account_request-SameAccounts plain draws (codes "demo's") self_deletion tables {user = demo}
      refl refl

admin_request-standing_example :
    (standing
        (codes "a")
        (admin_request plain draws (codes "ann's") (disabling (codes "a") true) tables).1
      ≡ standing (codes "a") tables)
    × (ann.is_admin ≡ false
        → (admin_request plain draws (codes "ann's") (disabling (codes "a") true) tables).1
          ≡ tables)
unfolding get_user_for_session text_beq
admin_request-standing_example =
    admin_request-standing plain draws (codes "ann's") (disabling (codes "a") true) tables
      {user = ann} refl
