-- ===== src/Accounts/Assigned.antt =====
-- A charge point belongs to one kept charger at most, in givEVC-ocppv2/app/auth_store.py.
use giv_evc_ocppv.Base.{
  Bool, true, false, List, [], ◌∷◌, ◌++◌, ◌≡◌, refl, if◌then◌else◌, ◌==◌, text_comparable, Text,
  arith, Bool-cases, inl, inr,
}
use giv_evc_ocppv.Accounts.Tables.{Charger, update_where, delete_where}
use giv_evc_ocppv.Accounts.Chargers.{is_kept, is_assigned}
use giv_evc_ocppv.Accounts.Rows.{any-append, beq_flip}

-- No two kept chargers have one charge point.
unfoldable pub AssignedOnce : List Charger → Type 0
AssignedOnce [] = Unit
AssignedOnce (c ∷ chargers) =
    (is_kept c ≡ true → is_assigned c.charge_point_id chargers ≡ false) × AssignedOnce chargers

pub append-AssignedOnce :
    (chargers : List Charger) (c : Charger)
    → is_assigned c.charge_point_id chargers ≡ false
    → AssignedOnce chargers
    → AssignedOnce (chargers ++ c ∷ [])
unfolding AssignedOnce is_assigned
append-AssignedOnce [] c free once = (λ kept. refl, tt)
append-AssignedOnce (first ∷ chargers) c free once = (
  λ kept. rw (
    any-append _ chargers (c ∷ []),
    once.0 kept,
    beq_flip first.charge_point_id c.charge_point_id (ground (arith, free, kept)),
  ),
  append-AssignedOnce chargers c (ground (arith, free)) once.1,
)

module _ (test : Charger → Bool) (change : Charger → Charger)
    (same_point : (c : Charger) → (change c).charge_point_id ≡ c.charge_point_id)
    (no_more : (c : Charger) → is_kept (change c) ≡ true → is_kept c ≡ true) where
  point_of_row :
      (c : Charger) → (if test c then change c else c).charge_point_id ≡ c.charge_point_id
  point_of_row c = elim (Bool-cases (test c)) [
    | inl changed ↦ rw changed (same_point c)
    | inr kept ↦ rw kept
  ]

  kept_before : (c : Charger) → is_kept (if test c then change c else c) ≡ true → is_kept c ≡ true
  kept_before c h = elim (Bool-cases (test c)) [
    | inl changed ↦ no_more c (rw changed at h)
    | inr kept ↦ (rw kept at h)
  ]

  is_assigned-update_where :
      (point : Text) (chargers : List Charger)
      → is_assigned point chargers ≡ false
      → is_assigned point (update_where test change chargers) ≡ false
  unfolding is_assigned update_where
  is_assigned-update_where point [] free = free
  is_assigned-update_where point (c ∷ chargers) free =
      elim (Bool-cases (c.charge_point_id == point)) [
        | inr other ↦
            rw (point_of_row c, other)
              (is_assigned-update_where point chargers (ground (arith, free)))
        | inl here ↦ elim (Bool-cases (is_kept (if test c then change c else c))) [
          | inl kept ↦ cc (rw (is_assigned, here, kept_before c kept) at free)
          | inr gone ↦
              rw (gone, point_of_row c, here)
                (is_assigned-update_where point chargers (ground (arith, free)))
        ]
      ]

  pub update_where-AssignedOnce :
      (chargers : List Charger)
      → AssignedOnce chargers
      → AssignedOnce (update_where test change chargers)
  unfolding AssignedOnce update_where
  update_where-AssignedOnce [] once = tt
  update_where-AssignedOnce (c ∷ chargers) once = (
    λ kept.
        rw (point_of_row c)
          (is_assigned-update_where c.charge_point_id chargers (once.0 (kept_before c kept))),
    update_where-AssignedOnce chargers once.1,
  )

is_assigned-delete_where :
    (test : Charger → Bool) (point : Text) (chargers : List Charger)
    → is_assigned point chargers ≡ false
    → is_assigned point (delete_where test chargers) ≡ false
unfolding is_assigned delete_where
is_assigned-delete_where test point [] free = free
is_assigned-delete_where test point (c ∷ chargers) free =
    ground (arith, free, is_assigned-delete_where test point chargers)

pub delete_where-AssignedOnce :
    (test : Charger → Bool) (chargers : List Charger)
    → AssignedOnce chargers
    → AssignedOnce (delete_where test chargers)
unfolding AssignedOnce delete_where
delete_where-AssignedOnce test [] once = tt
delete_where-AssignedOnce test (c ∷ chargers) once = elim (Bool-cases (test c)) [
  | inl gone ↦ rw gone (delete_where-AssignedOnce test chargers once.1)
  | inr kept ↦ rw kept (
    λ is_here. is_assigned-delete_where test c.charge_point_id chargers (once.0 is_here),
    delete_where-AssignedOnce test chargers once.1,
  )
]
