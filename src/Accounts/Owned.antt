-- ===== src/Accounts/Owned.antt =====
-- Which chargers a user owns after the operations of givEVC-ocppv2/app/auth_store.py on them.
use giv_evc_ocppv.Base.{
  ℕ, Bool, true, false, ◌&&◌, some, List, [], ◌∷◌, ◌++◌, ◌≡◌, ◌∙◌, ltb, ◌==◌, text_comparable,
  beq_self, any, filter, Text, arith, Bool-cases, Option-cases, inl, inr,
}
use giv_evc_ocppv.Accounts.Tables.{Charger, update_where, delete_where, latest_by}
use giv_evc_ocppv.Accounts.Chargers.{is_kept, owns, replacement, mark_deleted}
use giv_evc_ocppv.Accounts.Rows.{any-append, beq_apart, beq_common}

module _ {ℓ} {A : Type ℓ} where
  any-latest_by :
      (p : A → Bool) (moment : A → ℕ) (rows : List A) {row : A}
      → latest_by moment rows ≡ some row
      → p row ≡ true
      → any p rows ≡ true
  unfolding latest_by
  any-latest_by p moment [] h here = cc
  any-latest_by p moment (first ∷ rows) {row} h here = elim (Option-cases (latest_by moment rows)) [
    | inl empty ↦
        let same : some first ≡ some row = rw (latest_by, empty) at h in
        let equal : first ≡ row = cc in rw (equal, here)
    | inr (other, found) ↦ elim (Bool-cases (ltb (moment other) (moment first))) [
      | inl later ↦
          let same : some first ≡ some row = rw (latest_by, found, later) at h in
          let equal : first ≡ row = cc in rw (equal, here)
      | inr earlier ↦
          let same : some other ≡ some row = rw (latest_by, found, earlier) at h in
          let again = any-latest_by p moment rows (found ∙ same) here in ground (arith, again)
    ]
  ]

  any-filter :
      (p q : A → Bool) (rows : List A)
      → any p (filter q rows) ≡ true
      → any (λ r. p r && q r) rows ≡ true
  any-filter p q [] h = h
  any-filter p q (row ∷ rows) h = ground (arith, h, any-filter p q rows)

  any-update_where_apart :
      (p q : A → Bool) (f : A → A) (rows : List A)
      → ((r : A) → p r ≡ true → q r ≡ false)
      → any p rows ≡ true
      → any p (update_where q f rows) ≡ true
  unfolding update_where
  any-update_where_apart p q f [] apart h = h
  any-update_where_apart p q f (row ∷ rows) apart h = elim (Bool-cases (p row)) [
    | inl here ↦ rw (apart row here, here)
    | inr away ↦ ground (arith, any-update_where_apart p q f rows apart (rw away at h))
  ]

  any-delete_where_apart :
      (p q : A → Bool) (rows : List A)
      → ((r : A) → p r ≡ true → q r ≡ false)
      → any p rows ≡ true
      → any p (delete_where q rows) ≡ true
  unfolding delete_where
  any-delete_where_apart p q [] apart h = h
  any-delete_where_apart p q (row ∷ rows) apart h = elim (Bool-cases (p row)) [
    | inl here ↦ rw (apart row here, here)
    | inr away ↦ ground (arith, any-delete_where_apart p q rows apart (rw away at h))
  ]

-- The replacement is a charger of the user.
pub replacement-owns :
    (id : Text) (chargers : List Charger) {charger : Text}
    → replacement id chargers ≡ some charger
    → owns id charger chargers ≡ true
unfolding replacement owns
replacement-owns id chargers {charger} h =
    elim (Option-cases
      (latest_by (λ c. c.adopted_at) (filter (λ c. c.owner_id == id && is_kept c) chargers))) [
        | inl empty ↦ cc (rw (replacement, empty) at h)
        | inr (c, found) ↦
            let same : some c.charger_id ≡ some charger = rw (replacement, found) at h in
            let equal : c.charger_id ≡ charger = cc in
            any-filter (λ c'. c'.charger_id == charger) (λ c. c.owner_id == id && is_kept c)
              chargers
              (any-latest_by (λ c'. c'.charger_id == charger) (λ c. c.adopted_at)
                (filter (λ c. c.owner_id == id && is_kept c) chargers) found
                (rw equal (beq_self charger)))
      ]

pub owns-append :
    (id charger : Text) (chargers more : List Charger)
    → owns id charger chargers ≡ true
    → owns id charger (chargers ++ more) ≡ true
unfolding owns
owns-append id charger chargers more h = rw (any-append _ chargers more, h)

-- A deletion takes one charger of one user.
pub owns-mark_deleted :
    (now : ℕ) (id charger key other : Text) (chargers : List Charger)
    → (key == id && other == charger) ≡ false
    → owns key other chargers ≡ true
    → owns key other (mark_deleted now id charger chargers) ≡ true
unfolding owns mark_deleted
owns-mark_deleted now id charger key other chargers apart h =
    any-update_where_apart (λ c. c.charger_id == other && (c.owner_id == key && is_kept c))
      (λ c. c.charger_id == charger && (c.owner_id == id && is_kept c))
      (λ c. record c { deleted_at = some now }) chargers
      (λ c mine. elim (Bool-cases (c.charger_id == charger && (c.owner_id == id && is_kept c))) [
        | inr away ↦ away
        | inl here ↦
            let owner =
              beq_common c.owner_id key id (ground (arith, mine)) (ground (arith, here)) in
            let same =
              beq_common c.charger_id other charger (ground (arith, mine)) (ground (arith, here)) in
            cc (rw (owner, same) at apart)
      ])
      h

pub owns-delete_where :
    (id key charger : Text) (chargers : List Charger)
    → (key == id) ≡ false
    → owns key charger chargers ≡ true
    → owns key charger (delete_where (λ c. c.owner_id == id) chargers) ≡ true
unfolding owns
owns-delete_where id key charger chargers apart h =
    any-delete_where_apart (λ c. c.charger_id == charger && (c.owner_id == key && is_kept c))
      (λ c. c.owner_id == id) chargers
      (λ c mine. beq_apart c.owner_id key id apart (ground (arith, mine))) h
