-- ===== src/Accounts/Rows.antt =====
-- What a lookup finds after the statements of SQL that givEVC-ocppv2/app/auth_store.py runs.
use giv_evc_ocppv.Base.{
  Bool, true, false, ◌&&◌, ◌||◌, Option, none, some, List, [], ◌∷◌, ◌++◌, ◌≡◌, refl, ◌∙◌, sym, ap,
  if◌then◌else◌, ◌==◌, text_comparable, text_beq_sound, beq_self, any, find, Text, arith,
  Bool-cases, inl, inr,
}
use giv_evc_ocppv.Accounts.Tables.{update_where, delete_where}

abbrev pub map_option {ℓ κ} : {A : Type ℓ} {B : Type κ} → (A → B) → Option A → Option B
map_option f none = none
map_option f (some x) = some (f x)

module _ {ℓ} {A : Type ℓ} where
  pub find_sound : (p : A → Bool) (rows : List A) {x : A} → find p rows ≡ some x → p x ≡ true
  find_sound p [] h = cc
  find_sound p (row ∷ rows) {x} h = elim (Bool-cases (p row)) [
    | inl yes_row ↦ cc
    | inr no_row ↦
        find_sound p rows (sym (ap (λ b. if b then some row else find p rows) no_row) ∙ h)
  ]

  -- A narrower test finds the same row where that row passes it.
  first :
      (p q : A → Bool) (row : A) (rows : List A) {x : A}
      → p row ≡ true
      → find p (row ∷ rows) ≡ some x
      → q x ≡ true
      → find (λ r. p r && q r) (row ∷ rows) ≡ some x
  first p q row rows {x} here h passes =
      let found : some row ≡ some x = rw here at h in
      let same : row ≡ x = cc in rw (here, ap q same, passes, same)

  pub find-and :
      (p q : A → Bool) (rows : List A) {x : A}
      → find p rows ≡ some x
      → q x ≡ true
      → find (λ r. p r && q r) rows ≡ some x
  find-and p q [] h passes = cc
  find-and p q (row ∷ rows) {x} h passes = elim (Bool-cases (p row)) [
    | inl here ↦ first p q row rows here h passes
    | inr away ↦ rw away (find-and p q rows (rw away at h) passes)
  ]

  pub find-append :
      (p : A → Bool) (rows more : List A) → find p rows ≡ none → find p (rows ++ more) ≡ find p more
  find-append p [] more h = refl
  find-append p (row ∷ rows) more h = ground (arith, h, find-append p rows more)

  pub find-append_found :
      (p : A → Bool) (rows more : List A) {x : A}
      → find p rows ≡ some x
      → find p (rows ++ more) ≡ some x
  find-append_found p [] more h = cc
  find-append_found p (row ∷ rows) more {x} h = elim (Bool-cases (p row)) [
    | inl here ↦ let found : some row ≡ some x = rw here at h in rw here found
    | inr away ↦ rw away (find-append_found p rows more (rw away at h))
  ]

  pub any-append :
      (p : A → Bool) (rows more : List A) → any p (rows ++ more) ≡ (any p rows || any p more)
  any-append p [] more = refl
  any-append p (row ∷ rows) more = ground (arith, any-append p rows more)

  pub find-none : (p : A → Bool) (rows : List A) → any p rows ≡ false → find p rows ≡ none
  find-none p [] h = refl
  find-none p (row ∷ rows) h = ground (arith, h, find-none p rows)

  -- The lookup of rows that a deletion does not touch, and of rows that it removes.
  pub find-delete_where :
      (p q : A → Bool) (rows : List A)
      → ((x : A) → p x ≡ true → q x ≡ false)
      → find p (delete_where q rows) ≡ find p rows
  unfolding delete_where
  find-delete_where p q [] apart = refl
  find-delete_where p q (row ∷ rows) apart =
      ground (arith, apart row, find-delete_where p q rows apart)

  pub find-delete_where_gone :
      (p q : A → Bool) (rows : List A)
      → ((x : A) → p x ≡ true → q x ≡ true)
      → find p (delete_where q rows) ≡ none
  unfolding delete_where
  find-delete_where_gone p q [] inside = refl
  find-delete_where_gone p q (row ∷ rows) inside =
      ground (arith, inside row, find-delete_where_gone p q rows inside)

  pub any-update_where :
      (p q : A → Bool) (f : A → A) (rows : List A)
      → ((x : A) → q x ≡ true → p (f x) ≡ p x)
      → any p (update_where q f rows) ≡ any p rows
  unfolding update_where
  any-update_where p q f [] same = refl
  any-update_where p q f (row ∷ rows) same =
      ground (arith, same row, any-update_where p q f rows same)

  pub find-any :
      (p q : A → Bool) (rows : List A) → any p rows ≡ false → find (λ r. p r && q r) rows ≡ none
  find-any p q [] h = refl
  find-any p q (row ∷ rows) h = ground (arith, h, find-any p q rows)

  -- An update that keeps the key, of the rows that are looked for, and of others.
  pub find-update_where :
      (p : A → Bool) (f : A → A) (rows : List A)
      → ((x : A) → p (f x) ≡ p x)
      → find p (update_where p f rows) ≡ map_option f (find p rows)
  unfolding update_where
  find-update_where p f [] keeps = refl
  find-update_where p f (row ∷ rows) keeps = elim (Bool-cases (p row)) [
    | inl here ↦ rw (here, keeps row, here) refl
    | inr away ↦ rw (away, away) (find-update_where p f rows keeps)
  ]

  pub find-update_where_apart :
      (p q : A → Bool) (f : A → A) (rows : List A)
      → ((x : A) → p (f x) ≡ p x)
      → ((x : A) → p x ≡ true → q x ≡ false)
      → find p (update_where q f rows) ≡ find p rows
  unfolding update_where
  find-update_where_apart p q f [] keeps apart = refl
  find-update_where_apart p q f (row ∷ rows) keeps apart = elim (Bool-cases (p row)) [
    | inl here ↦ rw (apart row here, here) refl
    | inr away ↦ ground (arith, away, keeps row, find-update_where_apart p q f rows keeps apart)
  ]

-- An update that changes neither the test nor what is read of a row.
pub find-update_where_view {ℓ κ} :
    {A : Type ℓ} {B : Type κ} (p q : A → Bool) (f : A → A) (view : A → B) (rows : List A)
    → ((x : A) → p (f x) ≡ p x)
    → ((x : A) → view (f x) ≡ view x)
    → map_option view (find p (update_where q f rows)) ≡ map_option view (find p rows)
unfolding update_where
find-update_where_view p q f view [] keeps same = refl
find-update_where_view p q f view (row ∷ rows) keeps same = elim (Bool-cases (p row)) [
  | inl here ↦ elim (Bool-cases (q row)) [
    | inl changed ↦ rw (changed, keeps row, here) (ap some (same row))
    | inr kept ↦ rw (kept, here) refl
  ]
  | inr away ↦ elim (Bool-cases (q row)) [
    | inl changed ↦
        rw (changed, keeps row, away) (find-update_where_view p q f view rows keeps same)
    | inr kept ↦ rw (kept, away) (find-update_where_view p q f view rows keeps same)
  ]
]

-- What holds of the rows that an update changes, and of those that it keeps, holds of a row found.
pub find-update_where_elim {ℓ κ} :
    {A : Type ℓ} (P : A → Type κ) (p q : A → Bool) (f : A → A) (rows : List A) {x : A}
    → ((r : A) → q r ≡ true → P (f r))
    → ((r : A) → q r ≡ false → P r)
    → find p (update_where q f rows) ≡ some x
    → P x
unfolding update_where
find-update_where_elim P p q f [] changes keeps h = cc
find-update_where_elim P p q f (row ∷ rows) {x} changes keeps h =
    let here : P (if q row then f row else row) = elim (Bool-cases (q row)) [
      | inl changed ↦ rw changed (changes row changed)
      | inr kept ↦ rw kept (keeps row kept)
    ] in
    elim (Bool-cases (p (if q row then f row else row))) [
      | inr away ↦ find-update_where_elim P p q f rows changes keeps (rw away at h)
      | inl there ↦
          let found : some (if q row then f row else row) ≡ some x = rw there at h in
          let same : (if q row then f row else row) ≡ x = cc in rw (← same) here
    ]

-- The tests of the code that compare a key with a text.
pub beq_apart : (x a b : Text) → (a == b) ≡ false → (x == a) ≡ true → (x == b) ≡ false
beq_apart x a b differ same = rw (text_beq_sound x a same) differ

pub beq_common : (x a b : Text) → (x == a) ≡ true → (x == b) ≡ true → (a == b) ≡ true
beq_common x a b one two = rw (← text_beq_sound x a one) two

pub beq_flip : (a b : Text) → (a == b) ≡ false → (b == a) ≡ false
beq_flip a b differ = elim (Bool-cases (b == a)) [
  | inr other ↦ other
  | inl same ↦ cc (beq_apart b a b differ same, beq_self b)
]
