-- ===== src/Accounts/Registration.antt =====
-- Registration in givEVC-ocppv2/app/auth_store.py.
use giv_evc_ocppv.Base.{
  ℕ, true, false, not, Option, some, List, [], ◌∷◌, ◌++◌, ◌≡◌, refl, sym, ap, ◌==◌, nat_comparable,
  text_comparable, length, Text, arith,
}
use giv_evc_ocppv.Accounts.Tables.{
  User, Store, Crypto, ok, invalid_email, weak_password, email_taken,
}
use giv_evc_ocppv.Accounts.Email.{normalise_email}
use giv_evc_ocppv.Accounts.Users.{create_user, new_user, is_long_enough, is_taken}
use giv_evc_ocppv.Accounts.Rows.{any-append, beq_flip}
use giv_evc_ocppv.Accounts.Inversion.{ok_inj, require-ok, row_or-ok}

-- What a registration that succeeds has passed, and what it adds.
pub record IsRegistered (crypto : Crypto) (id salt : Text) (now : ℕ) (email password : Text)
    (name : Option Text) (s : Store) (user : User) (after : Store) : Type 0 where
  pub address : Text
  pub normal : normalise_email email ≡ some address
  pub long_enough : is_long_enough password ≡ true
  pub not_taken : is_taken id address s.users ≡ false
  pub new_row :
      user ≡ new_user id address (crypto.hash_password salt password) name (length s.users == 0) now
  pub added : after ≡ record s { users = s.users ++ user ∷ [] }

pub create_user-IsRegistered :
    (crypto : Crypto) (id salt : Text) (now : ℕ) (email password : Text) (name : Option Text)
    (s : Store) {user : User} {after : Store}
    → create_user crypto id salt now email password name s ≡ ok (user, after)
    → IsRegistered crypto id salt now email password name s user after
unfolding create_user
create_user-IsRegistered crypto id salt now email password name s h =
    let (address, normal, more) = row_or-ok (normalise_email email) invalid_email _ h in
    let (long, rest) = require-ok (is_long_enough password) weak_password _ more in
    let (free, made) = require-ok (not (is_taken id address s.users)) email_taken _ rest in
    let equal = ok_inj made in
    let same_row = ap (λ r. r.0) (sym equal) in
    record {
      address = address;
      normal = normal;
      long_enough = long;
      not_taken = ground (arith, free);
      new_row = same_row;
      added = rw same_row (ap (λ r. r.1) (sym equal));
    }

-- No two users have one identifier or one address.
unfoldable pub UniqueUsers : List User → Type 0
UniqueUsers [] = Unit
UniqueUsers (u ∷ users) = (is_taken u.user_id u.email users ≡ false) × UniqueUsers users

append-UniqueUsers :
    (users : List User) (user : User)
    → is_taken user.user_id user.email users ≡ false
    → UniqueUsers users
    → UniqueUsers (users ++ user ∷ [])
unfolding UniqueUsers is_taken
append-UniqueUsers [] user free unique = (refl, tt)
append-UniqueUsers (u ∷ users) user free unique = (
  rw (
    any-append _ users (user ∷ []),
    unique.0,
    beq_flip u.user_id user.user_id (ground (arith, free)),
    beq_flip u.email user.email (ground (arith, free)),
  ),
  append-UniqueUsers users user (ground (arith, free)) unique.1,
)

-- A registration keeps identifiers and addresses different, and its user is an administrator where it
-- is the first one, and only there.
pub create_user-UniqueUsers :
    (crypto : Crypto) (id salt : Text) (now : ℕ) (email password : Text) (name : Option Text)
    (s : Store) {user : User} {after : Store}
    → UniqueUsers s.users
    → create_user crypto id salt now email password name s ≡ ok (user, after)
    → UniqueUsers after.users × (user.is_admin ≡ (length s.users == 0))
create_user-UniqueUsers crypto id salt now email password name s {user} unique h =
    let registered = create_user-IsRegistered crypto id salt now email password name s h in
    (
      rw registered.added
          (append-UniqueUsers s.users user (rw registered.new_row registered.not_taken) unique),
      ap (λ u. u.is_admin) registered.new_row,
    )
