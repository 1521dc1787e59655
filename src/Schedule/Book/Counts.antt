-- ===== src/Schedule/Book/Counts.antt =====
-- How the loops over the schedules change the identifiers and the number of enabled schedules.
use giv_evc_ocppv.Base.{
  ℕ, ◌+◌, ◌≤◌, ◌≡◌, refl, ap, Bool, true, false, ◌||◌, List, [], ◌∷◌, ◌==◌, Text, text_comparable,
  text_beq_iff, arith, Bool-cases, inl, inr,
}
use giv_evc_ocppv.Schedule.Item.{Item}
use giv_evc_ocppv.Schedule.Book.Lists.{
  has_schedule, replace_schedule, append_schedule, disable_others, set_enabled_in, without_schedule,
}

abbrev pub one_if : Bool → ℕ
one_if true = 1
one_if false = 0

abbrev pub count_enabled : List Item → ℕ
count_enabled [] = 0
count_enabled (item ∷ items) = one_if item.enabled + count_enabled items

abbrev pub count_id : Text → List Item → ℕ
count_id key [] = 0
count_id key (item ∷ items) = one_if (item.id == key) + count_id key items

-- No two schedules have the same identifier.
abbrev pub Unique : List Item → Type 0
Unique [] = Unit
Unique (item ∷ items) = (has_schedule item.id items ≡ false) × Unique items

same_key : (a b k : Text) → (a == b) ≡ true → (a == k) ≡ (b == k)
same_key a b k h = ap (λ x. x == k) ((text_beq_iff a b).0 h)

count_id-absent :
    (key : Text) (items : List Item) → has_schedule key items ≡ false → count_id key items ≡ 0
unfolding has_schedule
count_id-absent key [] h = refl
count_id-absent key (item ∷ items) h = ground (arith, count_id-absent key items)

pub count_id-Unique : (key : Text) (items : List Item) → Unique items → count_id key items ≤ 1
count_id-Unique key [] u = omega arith
count_id-Unique key (item ∷ items) u = elim (Bool-cases (item.id == key)) [
  | inl e ↦
      rw e (omega (arith, count_id-absent key items (rw ((text_beq_iff item.id key).0 e) at u.0)))
  | inr e ↦ rw e (omega (arith, count_id-Unique key items u.1))
]

pub disable_others-count :
    (key : Text) (items : List Item) → count_enabled (disable_others key items) ≤ count_id key items
unfolding disable_others
disable_others-count key [] = omega arith
disable_others-count key (item ∷ items) = ground (arith, disable_others-count key items)

pub set_enabled_in-count :
    (key : Text) (items : List Item)
    → (count_enabled (set_enabled_in key true items) ≤ count_id key items)
      × (count_enabled (set_enabled_in key false items) ≤ count_enabled items)
unfolding set_enabled_in
set_enabled_in-count key [] = (omega arith, omega arith)
set_enabled_in-count key (item ∷ items) = ground (arith, set_enabled_in-count key items)

pub without_schedule-count :
    (key : Text) (items : List Item)
    → count_enabled (without_schedule key items) ≤ count_enabled items
unfolding without_schedule
without_schedule-count key [] = omega arith
without_schedule-count key (item ∷ items) = ground (arith, without_schedule-count key items)

pub replace_schedule-count :
    (new : Item) (items : List Item)
    → new.enabled ≡ false
    → count_enabled (replace_schedule new items) ≤ count_enabled items
unfolding replace_schedule
replace_schedule-count new [] h = omega arith
replace_schedule-count new (item ∷ items) h = ground (arith, replace_schedule-count new items h)

pub append_schedule-count :
    (new : Item) (items : List Item)
    → count_enabled (append_schedule new items) ≡ count_enabled items + one_if new.enabled
unfolding append_schedule
append_schedule-count new [] = ground arith
append_schedule-count new (item ∷ items) = omega (arith, append_schedule-count new items)

-- The loops that only set flags keep every identifier.
pub has-disable_others :
    (k key : Text) (items : List Item)
    → has_schedule k (disable_others key items) ≡ has_schedule k items
unfolding has_schedule disable_others
has-disable_others k key [] = refl
has-disable_others k key (item ∷ items) = ground (arith, has-disable_others k key items)

pub has-set_enabled_in :
    (k key : Text) (enabled : Bool) (items : List Item)
    → has_schedule k (set_enabled_in key enabled items) ≡ has_schedule k items
unfolding has_schedule set_enabled_in
has-set_enabled_in k key enabled [] = refl
has-set_enabled_in k key enabled (item ∷ items) =
    ground (arith, has-set_enabled_in k key enabled items)

pub has-replace_schedule :
    (k : Text) (new : Item) (items : List Item)
    → has_schedule k (replace_schedule new items) ≡ has_schedule k items
unfolding has_schedule replace_schedule
has-replace_schedule k new [] = refl
has-replace_schedule k new (item ∷ items) =
    ground (arith, same_key item.id new.id k, has-replace_schedule k new items)

pub has-append_schedule :
    (k : Text) (new : Item) (items : List Item)
    → has_schedule k (append_schedule new items) ≡ has_schedule k items || new.id == k
unfolding has_schedule append_schedule
has-append_schedule k new [] = ground arith
has-append_schedule k new (item ∷ items) = ground (arith, has-append_schedule k new items)

pub has-without_schedule :
    (k key : Text) (items : List Item)
    → has_schedule k items ≡ false
    → has_schedule k (without_schedule key items) ≡ false
unfolding has_schedule without_schedule
has-without_schedule k key [] h = refl
has-without_schedule k key (item ∷ items) h = ground (arith, has-without_schedule k key items)
